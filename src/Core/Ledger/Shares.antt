-- ===== src/Core/Ledger/Shares.antt =====
-- How the usage of all providers in ledger.rs is made of the usage of each.
use role_n.Prelude.{
  ℕ, ◌+◌, ◌^◌, ◌<◌, ◌≤◌, String, ◌≡◌, refl, true, false, Option, none, some, List, [], ◌∷◌,
  if◌then◌else◌, ◌==◌, ==_iff, string_eq, length, tally, arith, contains,
}
use role_n.Core.Types.{Text}
use role_n.Core.Ledger.{Chrono}
use role_n.Core.Ledger.Usage.{
  Costs, EntryRow, UsageSummary, counted, usage_since, total_tokens, total_cost,
}

-- No text stands twice in the list.
abbrev pub Unique : List String → Type 0
Unique [] = Unit
Unique (p ∷ ps) = (contains ps p ≡ false) × Unique ps

tally-one :
    (name : String) (k : ℕ) (ps : List String)
    → Unique ps
    → tally (λ p. if name == p then k else 0) ps ≡ (if contains ps name then k else 0)
tally-one name k [] u = refl
tally-one name k (p ∷ ps) (h, u) =
    ground (arith, ==_iff name p, ==_iff p name, tally-one name k ps u)

tally-add :
    (f g : String → ℕ) (ps : List String) → tally (λ p. f p + g p) ps ≡ tally f ps + tally g ps
tally-add f g [] = refl
tally-add f g (p ∷ ps) = omega (arith, tally-add f g ps)

tally-zero : (ps : List String) → tally (λ _. 0) ps ≡ 0
tally-zero [] = refl
tally-zero (p ∷ ps) = omega (arith, tally-zero ps)

module _ {F : Type 0} where
  length-tally : (rows : List (EntryRow F)) → length rows ≡ tally (λ _. 1) rows
  length-tally [] = refl
  length-tally (row ∷ rows) = omega (arith, length-tally rows)

  abbrev ins : EntryRow F → ℕ
  ins row = row.tokens_in

  abbrev outs : EntryRow F → ℕ
  outs row = row.tokens_out

  abbrev pub tokens_in_of : Option (UsageSummary F) → ℕ
  tokens_in_of none = 0
  tokens_in_of (some u) = u.tokens_in

  abbrev pub tokens_out_of : Option (UsageSummary F) → ℕ
  tokens_out_of none = 0
  tokens_out_of (some u) = u.tokens_out

  abbrev pub requests_of : Option (UsageSummary F) → ℕ
  requests_of none = 0
  requests_of (some u) = u.requests

module _ {F : Type 0} (costs : Costs F) (chrono : Chrono) (since : Text) where
  abbrev rows_of : Option String → List (EntryRow F) → List (EntryRow F)
  rows_of p rows = counted costs chrono p since rows

  -- Every row since the time is of one of the providers.
  abbrev pub Covered : List String → List (EntryRow F) → Type 0
  Covered ps [] = Unit
  Covered ps (row ∷ rows) =
      (chrono.text_le since row.ts ≡ true → contains ps row.provider_id ≡ true) × Covered ps rows

  module _ (w : EntryRow F → ℕ) where
    abbrev shares : List String → List (EntryRow F) → ℕ
    shares ps rows = tally (λ p. tally w (rows_of (some p) rows)) ps

    abbrev own : EntryRow F → String → ℕ
    own row p =
        if row.provider_id == p then (if chrono.text_le since row.ts then w row else 0) else 0

    share-cons :
        (row : EntryRow F) (rows : List (EntryRow F)) (p : String)
        → tally w (rows_of (some p) (row ∷ rows)) ≡ own row p + tally w (rows_of (some p) rows)
    share-cons row rows p = ground arith

    shares-cons :
        (row : EntryRow F) (rows : List (EntryRow F)) (ps : List String)
        → shares ps (row ∷ rows) ≡ tally (own row) ps + shares ps rows
    shares-cons row rows [] = refl
    shares-cons row rows (p ∷ ps) = omega (arith, share-cons row rows p, shares-cons row rows ps)

    shares-all :
        (ps : List String) (rows : List (EntryRow F))
        → Unique ps
        → Covered ps rows
        → shares ps rows ≡ tally w (rows_of none rows)
    shares-all ps [] u c = tally-zero ps
    shares-all ps (row ∷ rows) u (in_ps, c) =
        let k = if chrono.text_le since row.ts then w row else 0 in
        ground (
          arith,
          in_ps,
          shares-cons row rows ps,
          tally-one row.provider_id k ps u,
          shares-all ps rows u c,
        )

    share-le :
        (p : String) (rows : List (EntryRow F))
        → tally w (rows_of (some p) rows) ≤ tally w (rows_of none rows)
    share-le p [] = omega arith
    share-le p (row ∷ rows) = ground (arith, share-le p rows)

  usage_since_ok :
      (p : Option String) (rows : List (EntryRow F))
      → tally ins (rows_of p rows) < 2 ^ 63
      → tally outs (rows_of p rows) < 2 ^ 63
      → (usage_since costs chrono p since rows
          ≡ some (record {
            tokens_in = tally ins (rows_of p rows);
            tokens_out = tally outs (rows_of p rows);
            cost = total_cost costs chrono (rows_of p rows);
            requests = length (rows_of p rows);
          }))
  unfolding usage_since
  usage_since_ok p rows i o = ground (arith, i, o)

  usage_since-some :
      (p : Option String) (rows : List (EntryRow F)) (u : UsageSummary F)
      → usage_since costs chrono p since rows ≡ some u
      → (tally ins (rows_of p rows) < 2 ^ 63)
        × (tally outs (rows_of p rows) < 2 ^ 63)
        × (u.tokens_in ≡ tally ins (rows_of p rows))
        × (u.tokens_out ≡ tally outs (rows_of p rows))
        × (u.requests ≡ length (rows_of p rows))
  unfolding usage_since
  usage_since-some p rows u e = ground (arith, e)

module _ {F : Type 0} (costs : Costs F) (chrono : Chrono) (since : Text) where
  abbrev usage_of : List (EntryRow F) → String → Option (UsageSummary F)
  usage_of rows p = usage_since costs chrono (some p) since rows

  usage_of-shares :
      (rows : List (EntryRow F)) (ps : List String)
      → tally ins (rows_of costs chrono since none rows) < 2 ^ 63
      → tally outs (rows_of costs chrono since none rows) < 2 ^ 63
      → (tally (λ p. tokens_in_of (usage_of rows p)) ps ≡ shares costs chrono since ins ps rows)
        × (tally (λ p. tokens_out_of (usage_of rows p)) ps ≡ shares costs chrono since outs ps rows)
        × (tally (λ p. requests_of (usage_of rows p)) ps
            ≡ shares costs chrono since (λ _. 1) ps rows)
  usage_of-shares rows [] i o = (refl, refl, refl)
  usage_of-shares rows (p ∷ ps) i o =
      let (a, b, c) = usage_of-shares rows ps i o in
      let i' = share-le costs chrono since ins p rows in
      let o' = share-le costs chrono since outs p rows in
      let e = usage_since_ok costs chrono since (some p) rows (omega arith) (omega arith) in
      let n = length-tally (rows_of costs chrono since (some p) rows) in
      (ground (arith, a, e), ground (arith, b, e), ground (arith, c, e, n))

  -- The usage since a time, when it can be summed, is shared out by the usage of each provider: over
  -- any list of different providers that has every one of the rows since then, the tokens in, the
  -- tokens out and the requests add up to those of all; and the total of the tokens, a number of 64
  -- bits, does not wrap around.
  pub usage_since_shares :
      (rows : List (EntryRow F)) (ps : List String) (u : UsageSummary F)
      → Unique ps
      → Covered costs chrono since ps rows
      → usage_since costs chrono none since rows ≡ some u
      → (tally (λ p. tokens_in_of (usage_of rows p)) ps ≡ u.tokens_in)
        × (tally (λ p. tokens_out_of (usage_of rows p)) ps ≡ u.tokens_out)
        × (tally (λ p. requests_of (usage_of rows p)) ps ≡ u.requests)
        × (total_tokens u ≡ u.tokens_in + u.tokens_out)
  unfolding total_tokens
  usage_since_shares rows ps u unique c e =
      let (i, o, ui, uo, un) = usage_since-some costs chrono since none rows u e in
      let (a, b, d) = usage_of-shares rows ps i o in
      let n = length-tally (rows_of costs chrono since none rows) in
      (
        ground (arith, a, ui, shares-all costs chrono since ins ps rows unique c),
        ground (arith, b, uo, shares-all costs chrono since outs ps rows unique c),
        ground (arith, d, un, n, shares-all costs chrono since (λ _. 1) ps rows unique c),
        omega arith,
      )
