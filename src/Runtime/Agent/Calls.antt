-- ===== src/Runtime/Agent/Calls.antt =====
-- The call loop of agent.rs ends.
use role_n.Prelude.{
  ℕ, zero, suc, ◌+◌, ◌-◌, ◌*◌, ◌≤◌, ◌<◌, ◌≡◌, subst, ltb→lt, String, Bool, not, ◌&&◌, Option, none,
  some, ltb, Bool-cases, inl, inr, arith,
}
use role_n.Runtime.Agent.{
  Reply, answered, retryable, fatal, Session, Called, responded, failed, no_fuel, migrate_to,
  on_retryable, on_reply, call_loop,
}

-- The call ended after at most so many requests, with at most two migrations in the session.
abbrev pub EndsWithin : ℕ → Called → Type 0
EndsWithin n (responded s calls) = (calls ≤ n) × (s.migrations ≤ 2)
EndsWithin n (failed s calls) = (calls ≤ n) × (s.migrations ≤ 2)
EndsWithin n no_fuel = ⊥

module _ (chat : ℕ → String → String → Reply) (migrate : ℕ → String → Option (String × String))
    (has_override : Bool) where
  -- The requests that may still follow: the attempts left, and four for each migration left.
  abbrev Enough : ℕ → ℕ → Session → Type 0
  Enough fuel attempt s =
      (attempt ≤ 3) × (s.migrations ≤ 2) × (4 - attempt + 4 * (2 - s.migrations) ≤ fuel)

  call_loop-EndsWithin :
      (fuel calls attempt : ℕ) (s : Session)
      → Enough fuel attempt s
      → EndsWithin (calls + fuel) (call_loop chat migrate has_override fuel calls attempt s)
  unfolding call_loop
  call_loop-EndsWithin zero calls attempt s (a, m, f) = absurd (omega arith)
  call_loop-EndsWithin (suc fuel) calls attempt s (a, m, f) =
      let total : calls + 1 + fuel ≡ calls + suc fuel = omega arith in
      by_reply
        (λ at t e.
          subst (λ n. EndsWithin n (call_loop chat migrate has_override fuel (calls + 1) at t))
            total (call_loop-EndsWithin fuel (calls + 1) at t e))
        (chat calls s.provider_id s.model)
    where
      again : ℕ → Session → Called
      again = call_loop chat migrate has_override fuel (calls + 1)

      Again : Type 0
      Again = (at : ℕ) (t : Session) → Enough fuel at t → EndsWithin (calls + suc fuel) (again at t)

      by_target :
          Again
          → s.migrations < 2
          → 3 ≤ attempt
          → (o : Option (String × String))
          → EndsWithin
              (calls + suc fuel)
              (migrate_to again (record s { migrations = s.migrations + 1 }) (calls + 1) o)
      by_target rec l k none = (omega arith, omega (arith, l))
      by_target rec l k (some (provider, model)) =
          rec 0 (record { provider_id = provider; model = model; migrations = s.migrations + 1 })
            (omega arith, omega (arith, l), omega (arith, l, k, a, m, f))

      by_tests :
          Again
          → EndsWithin
              (calls + suc fuel)
              (on_retryable again (migrate calls) has_override (calls + 1) attempt s)
      by_tests rec = elim (Bool-cases (ltb attempt 3)) [
        | inl t ↦
            let l : attempt < 3 = ltb→lt attempt 3 t in
            rw t (rec (attempt + 1) s (omega (arith, l), m, omega (arith, l, f)))
        | inr t ↦ elim (Bool-cases (ltb s.migrations 2 && not has_override)) [
          | inl u ↦
              rw (t, u)
                (by_target rec (ground (arith, u)) (ground (arith, t))
                  (migrate calls s.provider_id))
          | inr u ↦ rw (t, u) (omega arith, m)
        ]
      ]

      by_reply :
          Again
          → (r : Reply)
          → EndsWithin
              (calls + suc fuel)
              (on_reply again (migrate calls) has_override (calls + 1) attempt s r)
      by_reply rec answered = (omega arith, m)
      by_reply rec fatal = (omega arith, m)
      by_reply rec retryable = by_tests rec

  -- A call ends, whatever the providers answer and wherever routing sends it: four requests to each
  -- of at most three providers, so at most 12, and never more than two migrations in a session.
  pub calls_bounded :
      (s : Session)
      → s.migrations ≤ 2
      → EndsWithin 12 (call_loop chat migrate has_override 12 0 0 s)
  calls_bounded s m = call_loop-EndsWithin 12 0 0 s (omega arith, m, omega arith)
