-- ===== src/Providers/Collect.antt =====
-- `collect_cancellable` of rolen-providers/src/routing.rs: the loop over the registry that asks each
-- provider for its health and can be stopped between two of them. The answers of the providers, of the
-- caller who may cancel, and of the ledger and the quota are parameters.
use role_n.Prelude.{
  ℕ, suc, ◌+◌, ◌-◌, ◌<◌, ◌≤◌, String, Bool, true, false, not, ◌&&◌, Option, none, some, List, [],
  ◌∷◌, ◌++◌, if◌then◌else◌, ltb, ==_iff, string_eq, nat_eq, list_eq, length, ◌≡◌, refl, arith,
  Bool-cases, inl, inr, take, ltb→lt, sym, ◌∙◌, subst, append-nil, append_assoc, ap,
}
use role_n.Prelude.Dict.{lookup, insert, lookup-insert}
use role_n.Prelude.Keyed.{find_key, has_key, is_found, UniqueKeys}
use role_n.Core.Types.{Text}
use role_n.Core.Text.{codes}
use role_n.Core.Pricing.{ProviderType, cli}
use role_n.Core.Rules.{ProviderState, EvalContext}
use role_n.Providers.Registry.{Provider, Model}

abbrev pub is_cli : ProviderType → Bool
is_cli cli = true
is_cli _ = false

-- What the loop asks of the outside.
pub record World (F : Type 0) : Type 0 where
  -- the answer to the n-th poll
  pub cancelled : ℕ → Bool
  -- `client::health(p).ok`
  pub health : Provider → Bool
  pub remaining_pct : String → Option ℕ
  -- the cost since the start of the month, 0 if it cannot be read
  pub cost_so_far : String → F
  pub now : ℕ × ℕ

-- The calls of `on_provider` and of the health check, in their order.
pub data Call : Type 0 where
  on_provider : ℕ → ℕ → String → Call
  probe : String → Call

-- Which providers are asked for their health.
abbrev pub is_probed : Provider → Bool
is_probed p = not p.suspended && not (is_cli p.ptype)

abbrev model_ids : List Model → List Text
model_ids [] = []
model_ids (m ∷ models) = codes m.id ∷ model_ids models

abbrev pub catalog : Provider → List Text
catalog p =
    if p.suspended then model_ids p.models else (if is_cli p.ptype then [] else model_ids p.models)

abbrev pub key_of : Provider → Text
key_of p = codes p.id

-- The result of a collection, `none` if it was cancelled, and the calls that it made.
pub record Collected (F : Type 0) : Type 0 where
  pub result : Option (List (Text × ProviderState F))
  pub calls : List Call

module _ {F : Type 0} (world : World F) where
  abbrev pub state_of : Provider → ProviderState F
  state_of p = record {
    healthy = is_probed p && world.health p;
    quota_remaining_pct = world.remaining_pct p.id;
    cost_so_far = world.cost_so_far p.id;
    models = catalog p;
  }

  abbrev pub calls_for : ℕ → ℕ → Provider → List Call
  calls_for done total p =
      on_provider done total p.id ∷ (if is_probed p then probe p.id ∷ [] else [])

  -- The loop at its `done`-th provider, with the map and the calls so far.
  unfoldable pub collect_from :
      ℕ → ℕ → List Provider → List (Text × ProviderState F) → List Call → Collected F
  unfolding insert
  collect_from total done [] states calls =
      if world.cancelled done
      then record { result = none; calls = calls }
      else record { result = some states; calls = calls }
  collect_from total done (p ∷ reg) states calls =
      let rest =
        collect_from total (suc done) reg (insert (key_of p) (state_of p) states)
          (calls ++ calls_for done total p) in
      if world.cancelled done then record { result = none; calls = calls } else rest

  unfoldable pub collect_cancellable : List Provider → Collected F
  unfolding collect_from
  collect_cancellable reg = collect_from (length reg) 0 reg [] []

  -- `Ok(Some(EvalContext { .. }))`
  unfoldable pub context_of :
      Option Text → Option Text → List (Text × ProviderState F) → EvalContext F
  context_of task_type project states = record {
    task_type = task_type;
    project = project;
    now = some world.now;
    providers = states;
  }

  -- The calls of the loop from the `done`-th provider on, if it is never cancelled.
  abbrev pub all_calls : ℕ → ℕ → List Provider → List Call
  all_calls total done [] = []
  all_calls total done (p ∷ reg) = calls_for done total p ++ all_calls total (suc done) reg

  -- The last provider with a key decides.
  abbrev pub states_of :
      List Provider → List (Text × ProviderState F) → List (Text × ProviderState F)
  states_of [] states = states
  states_of (p ∷ reg) states = states_of reg (insert (key_of p) (state_of p) states)

  reached :
      (total done k : ℕ)
      → done ≤ k
      → ((i : ℕ) → done ≤ i → i < k → world.cancelled i ≡ false)
      → world.cancelled done ≡ true
      → k ≡ done
  reached total done k l runs stop = elim (Bool-cases (ltb done k)) [
    | inl b ↦ absurd (ground (arith, stop, runs done (omega arith) (ltb→lt done k b)))
    | inr b ↦ ground (arith, b, l)
  ]

  passed :
      (done k : ℕ) → done ≤ k → world.cancelled done ≡ false → world.cancelled k ≡ true → done < k
  passed done k l on c = elim (Bool-cases (ltb done k)) [
    | inl b ↦ ltb→lt done k b
    | inr b ↦
        let e : k ≡ done = ground (arith, b, l) in
        absurd (ground (arith, on, subst (λ i. world.cancelled i ≡ true) e c))
  ]

  has_key-find_key :
      (k : Text) (reg : List Provider)
      → has_key key_of k reg ≡ is_found key_of (find_key key_of k reg)
  unfolding find_key
  has_key-find_key k [] = refl
  has_key-find_key k (p ∷ reg) = ground (arith, has_key-find_key k reg)

  abbrev pub or_state : Option Provider → Option (ProviderState F) → Option (ProviderState F)
  or_state none old = old
  or_state (some p) old = some (state_of p)

  lookup-states_of :
      (reg : List Provider) (states : List (Text × ProviderState F)) (k : Text)
      → UniqueKeys key_of reg
      → lookup k (states_of reg states) ≡ or_state (find_key key_of k reg) (lookup k states)
  unfolding find_key
  lookup-states_of [] states k u = refl
  lookup-states_of (p ∷ reg) states k (h, u) =
      lookup-states_of reg (insert (key_of p) (state_of p) states) k u
      ∙ ground (
        arith,
        h,
        ==_iff (key_of p) k,
        lookup-insert (key_of p) k (state_of p) states,
        has_key-find_key k reg,
      )

  -- The caller does not stop at any poll from one up to another.
  abbrev pub RunsUntil : ℕ → ℕ → Type 0
  RunsUntil done k = (i : ℕ) → done ≤ i → i < k → world.cancelled i ≡ false

  collect_from-cancelled :
      (total done k : ℕ) (reg : List Provider) (states : List (Text × ProviderState F))
      → (calls : List Call) → done ≤ k
      → k ≤ done + length reg
      → RunsUntil done k
      → world.cancelled k ≡ true
      → collect_from total done reg states calls
        ≡ record { result = none; calls = calls ++ all_calls total done (take (k - done) reg) }
  unfolding collect_from
  collect_from-cancelled total done k [] states calls l m runs c =
      let e : k ≡ done = omega arith in
      let c' : world.cancelled done ≡ true = subst (λ i. world.cancelled i ≡ true) e c in
      let z : k - done ≡ 0 = omega arith in
      rw (c', z) (ap (λ cs. record { result = none; calls = cs }) (sym (append-nil calls)))
  collect_from-cancelled total done k (p ∷ reg) states calls l m runs c =
      elim (Bool-cases (world.cancelled done)) [
        | inl stop ↦
            let e : k ≡ done = reached total done k l runs stop in
            let z : k - done ≡ 0 = omega arith in
            rw (stop, z) (ap (λ cs. record { result = none; calls = cs }) (sym (append-nil calls)))
        | inr on ↦
            let below : done < k = passed done k l on c in
            let s : k - done ≡ suc (k - suc done) = omega arith in
            rw (on, s)
              (collect_from-cancelled total (suc done) k reg (insert (key_of p) (state_of p) states)
                  (calls ++ calls_for done total p) (omega arith) (omega arith)
                  (λ i a b. runs i (omega arith) b) c
                ∙ ap (λ cs. record { result = none; calls = cs })
                    (append_assoc calls (calls_for done total p)
                      (all_calls total (suc done) (take (k - suc done) reg))))
      ]

  collect_from-completes :
      (total done : ℕ) (reg : List Provider) (states : List (Text × ProviderState F))
      → (calls : List Call) → RunsUntil done (done + length reg + 1)
      → collect_from total done reg states calls
        ≡ record { result = some (states_of reg states); calls = calls ++ all_calls total done reg }
  unfolding collect_from
  collect_from-completes total done [] states calls runs =
      rw (runs done (omega arith) (omega arith))
        (ap (λ cs. record { result = some states; calls = cs }) (sym (append-nil calls)))
  collect_from-completes total done (p ∷ reg) states calls runs =
      rw (runs done (omega arith) (omega arith)) (
        collect_from-completes total (suc done) reg (insert (key_of p) (state_of p) states)
          (calls ++ calls_for done total p) (λ i a b. runs i (omega arith) (omega arith))
        ∙ ap (λ cs. record { result = some (states_of (p ∷ reg) states); calls = cs })
            (append_assoc calls (calls_for done total p) (all_calls total (suc done) reg)))

  -- A collection that the caller stops at a poll has no result and has contacted exactly the providers
  -- before it, in the order of the registry: none, if it is stopped at once.
  pub collect_cancelled :
      (reg : List Provider) (k : ℕ)
      → k ≤ length reg
      → RunsUntil 0 k
      → world.cancelled k ≡ true
      → collect_cancellable reg
        ≡ record { result = none; calls = all_calls (length reg) 0 (take k reg) }
  unfolding collect_cancellable
  collect_cancelled reg k l runs c =
      let z : k - 0 ≡ k = omega arith in
      collect_from-cancelled (length reg) 0 k reg [] [] (omega arith) (omega arith) runs c
      ∙ rw z refl

  -- A collection that is never stopped ends with the state of every provider of the registry under its
  -- id: healthy only if it is not suspended, is no command line agent and has answered; and it has
  -- contacted each provider that it asks, once. It is supposed that the ids are different.
  pub collect_completes :
      (reg : List Provider)
      → UniqueKeys key_of reg
      → RunsUntil 0 (length reg + 1)
      → (states : List (Text × ProviderState F)) × ((collect_cancellable reg).result ≡ some states)
        × ((collect_cancellable reg).calls ≡ all_calls (length reg) 0 reg)
        × ((k : Text) → lookup k states ≡ or_state (find_key key_of k reg) none)
  unfolding collect_cancellable lookup
  collect_completes reg u runs =
      let e = collect_from-completes (length reg) 0 reg [] [] (λ i a b. runs i a (omega arith)) in
      (states_of reg [], rw e refl, rw e refl, λ k. lookup-states_of reg [] k u)
