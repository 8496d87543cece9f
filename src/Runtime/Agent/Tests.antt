-- ===== src/Runtime/Agent/Tests.antt =====
-- A call that is retried and migrates, and histories around the limit, in agent.rs.
use role_n.Prelude.{
  ℕ, ◌-◌, ◌≤◌, ◌<◌, ◌≡◌, refl, String, false, Option, none, some, List, [], ◌∷◌, ◌++◌, take, drop,
  arith, ◌==◌, string_eq, if◌then◌else◌,
}
use role_n.Core.Types.{Text}
use role_n.Runtime.Agent.{
  Reply, answered, retryable, Session, responded, call_loop, HistMsg, user, system, estimate,
  unchanged, panics, compacted, maybe_compact,
}
use role_n.Runtime.Agent.Calls.{EndsWithin, calls_bounded}
use role_n.Runtime.Agent.Compact.{maybe_compact_lem}

-- The first provider is overloaded, the second answers.
abbrev chat : ℕ → String → String → Reply
chat n provider model = if provider == "kimi" then retryable else answered

abbrev to_glm : ℕ → String → Option (String × String)
to_glm n provider = some ("glm", "5")

abbrev session : Session
session = record { provider_id = "kimi"; model = "k2"; migrations = 0 }

migrates :
    call_loop chat to_glm false 12 0 0 session
    ≡ responded (record { provider_id = "glm"; model = "5"; migrations = 1 }) 5
unfolding call_loop
migrates = refl

calls_bounded_example : EndsWithin 12 (call_loop chat to_glm false 12 0 0 session)
calls_bounded_example = calls_bounded chat to_glm false session (omega arith)

abbrev six : List HistMsg
six = user [] ∷ user [] ∷ user [] ∷ user [] ∷ user [] ∷ user (1 ∷ 1 ∷ 1 ∷ 1 ∷ []) ∷ []

abbrev no_summary : List HistMsg → Option Text
no_summary dropped = none

abbrev no_note : ℕ → Option Text → Text
no_note n summary = []

six_panics : maybe_compact no_summary no_note 1 six ≡ panics
unfolding maybe_compact
six_panics = refl

maybe_compact_lem_example :
    (estimate six < 1 → maybe_compact no_summary no_note 1 six ≡ unchanged)
    × (6 ≤ 4 → maybe_compact no_summary no_note 1 six ≡ unchanged)
    × (◌≡◌ {A = ℕ} 6 8 → maybe_compact no_summary no_note 1 six ≡ unchanged)
    × (1 ≤ estimate six → 4 < 6 → 6 < 8 → maybe_compact no_summary no_note 1 six ≡ panics)
    × (1 ≤ estimate six
        → 8 < 6
        → maybe_compact no_summary no_note 1 six
          ≡ compacted
              (take 2 six
                ++ system (no_note (6 - 8) (no_summary (drop 2 (take (6 - 6) six))))
                  ∷ drop (6 - 6) six)
              (6 - 8))
maybe_compact_lem_example = maybe_compact_lem no_summary no_note 1 six
