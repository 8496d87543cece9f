-- ===== src/Core/Patch/Locate.antt =====
-- Where a hunk goes (`locate` of patch.rs).
use role_n.Prelude.{
  ℕ, zero, suc, ◌+◌, ◌-◌, ◌≤◌, ◌<◌, ◌≡◌, refl, sym, ap, ◌≢◌, ◌∙◌, ◌↔◌, ◌⊎◌, inl, inr, false, true,
  List, [], ◌∷◌, length, take, drop, length-drop, length-take, ==_iff, eqb, eqb_iff, contains,
  nat_eq, list_eq, Bool-cases, arith,
}
use role_n.Core.Types.{Text}
use role_n.Core.Patch.{
  value, reject, panic, Hunk, match_positions, choose, search_needle, locate, locate_side,
}

-- `needle` stands in `doc` at `pos`.
abbrev pub Matches : List Text → List Text → ℕ → Type 0
Matches doc needle pos = take (length needle) (drop pos doc) ≡ needle

module _ (doc needle : List Text) where
  match_positions_sound :
      (start rounds q : ℕ)
      → contains (match_positions doc needle start rounds) q ≡ true
      → Matches doc needle q × (start ≤ q) × (q < start + rounds)
  unfolding match_positions
  match_positions_sound start zero q h = cc
  match_positions_sound start (suc rounds) q h = ground (
    arith,
    match_positions_sound (start + 1) rounds q,
    ==_iff (take (length needle) (drop start doc)) needle,
    eqb_iff start q,
  )

  match_positions_complete :
      (start rounds q : ℕ)
      → Matches doc needle q
      → start ≤ q
      → q < start + rounds
      → contains (match_positions doc needle start rounds) q ≡ true
  unfolding match_positions
  match_positions_complete start zero q m lo hi = absurd (omega arith)
  match_positions_complete start (suc rounds) q m lo hi = elim (Bool-cases (eqb start q)) [
    | inl e ↦
        let same : q ≡ start = sym ((eqb_iff start q).0 e) in
        let found : Matches doc needle start = rw same at m in
        rw ((==_iff (take (length needle) (drop start doc)) needle).1 found) (ground arith)
    | inr e ↦ ground (
      arith,
      eqb_iff start q,
      match_positions_complete (start + 1) rounds q m (ground (arith, eqb_iff start q))
          (omega arith),
    )
  ]

  match_positions_lt :
      (start rounds : ℕ) {a b : ℕ} {rest : List ℕ}
      → match_positions doc needle start rounds ≡ a ∷ b ∷ rest
      → a < b
  unfolding match_positions
  match_positions_lt start zero e = cc
  match_positions_lt start (suc rounds) {a} {b} {rest} e = ground (
    arith,
    match_positions_lt (start + 1) rounds {a = a} {b = b} {rest = rest},
    match_positions_sound (start + 1) rounds b,
    eqb_iff b b,
  )

-- `choose` takes one of the matches: the only one, or the declared one.
choose_value :
    (declared : ℕ) (ms : List ℕ) (pos : ℕ)
    → choose declared ms ≡ value pos
    → (contains ms pos ≡ true) × ((q : ℕ) → contains ms q ≡ true → (q ≡ pos) ⊎ (pos ≡ declared))
unfolding choose
choose_value declared [] pos e = cc
choose_value declared (m ∷ []) pos e =
    (ground (arith, eqb_iff m pos), λ q h. ground (arith, eqb_iff m q))
choose_value declared (m ∷ n ∷ ms) pos e = (ground arith, λ q h. inr (ground arith))

-- `choose` refuses when there is no match, or several and not the declared one.
choose_reject :
    (declared : ℕ) (ms : List ℕ)
    → choose declared ms ≡ reject
    → (ms ≡ [])
      ⊎ ((a : ℕ) × (b : ℕ) × (rest : List ℕ) × (ms ≡ a ∷ b ∷ rest) × (contains ms declared ≡ false))
unfolding choose
choose_reject declared [] e = inl refl
choose_reject declared (m ∷ []) e = cc
choose_reject declared (m ∷ n ∷ ms) e = inr (m, n, ms, refl, ground arith)

choose-ne-panic : (declared : ℕ) (ms : List ℕ) → choose declared ms ≢ panic
unfolding choose
choose-ne-panic declared [] = ground arith
choose-ne-panic declared (m ∷ []) = ground arith
choose-ne-panic declared (m ∷ n ∷ ms) = ground arith

Matches-bound :
    (doc needle : List Text) (pos : ℕ)
    → needle ≢ []
    → Matches doc needle pos
    → pos + length needle ≤ length doc
Matches-bound doc [] pos ne m = absurd (ne refl)
Matches-bound doc (line ∷ needle) pos ne m =
    omega
      (arith, ap length m, length-take (length (line ∷ needle)) (drop pos doc), length-drop pos doc)

locate_search :
    (doc : List Text) (h : Hunk)
    → h.old_side ≢ []
    → locate doc h ≡ search_needle doc h.old_side (h.old_start - 1)
unfolding locate
locate_search doc h = go h.old_side
  where
    go :
        (old : List Text)
        → old ≢ []
        → locate_side doc h.old_start old ≡ search_needle doc old (h.old_start - 1)
    go [] ne = absurd (ne refl)
    go (line ∷ rest) ne = refl

module _ (doc needle : List Text) (declared : ℕ) where
  abbrev found : List ℕ
  found = match_positions doc needle 0 (length doc - length needle + 1)

  found-Matches : (q : ℕ) → contains found q ≡ true → Matches doc needle q
  found-Matches q h = (match_positions_sound doc needle 0 (length doc - length needle + 1) q h).0

  Matches-found : (q : ℕ) → needle ≢ [] → Matches doc needle q → contains found q ≡ true
  Matches-found q ne m =
      match_positions_complete doc needle 0 (length doc - length needle + 1) q m (omega arith)
        (omega (arith, Matches-bound doc needle q ne m))

  search_value :
      (pos : ℕ)
      → needle ≢ []
      → search_needle doc needle declared ≡ value pos
      → Matches doc needle pos
        × (pos + length needle ≤ length doc)
        × ((q : ℕ) → Matches doc needle q → (q ≡ pos) ⊎ (pos ≡ declared))
  unfolding search_needle
  search_value pos ne e =
      let picked : choose declared found ≡ value pos = ground arith in
      let (mem, only) = choose_value declared found pos picked in
      let here = found-Matches pos mem in
      (here, Matches-bound doc needle pos ne here, λ q m. only q (Matches-found q ne m))

  search_reject :
      needle ≢ []
      → search_needle doc needle declared ≡ reject
      → ((q : ℕ) → ¬ (Matches doc needle q))
        ⊎ (a : ℕ) × (b : ℕ) × (a < b)
          × Matches doc needle a
          × Matches doc needle b
          × ¬ (Matches doc needle declared)
  unfolding search_needle
  search_reject ne e =
      let refused : choose declared found ≡ reject = ground arith in
      elim (choose_reject declared found refused) [
        | inl e ↦ inl (λ q m. ground (arith, e, Matches-found q ne m))
        | inr (a, b, rest, e, miss) ↦ inr (
          a,
          b,
          match_positions_lt doc needle 0 (length doc - length needle + 1) e,
          found-Matches a (ground (arith, e, eqb_iff a a)),
          found-Matches b (ground (arith, e, eqb_iff b b)),
          λ m. ground (arith, miss, Matches-found declared ne m),
        )
      ]

-- When a hunk with an old side is located at `pos`, its old side stands in the file at `pos`, within
-- bounds, and every other place where it stands is passed over only because `pos` is the declared
-- position.
pub locate_value :
    (doc : List Text) (h : Hunk) (pos : ℕ)
    → h.old_side ≢ []
    → locate doc h ≡ value pos
    → Matches doc h.old_side pos
      × (pos + length h.old_side ≤ length doc)
      × ((q : ℕ) → Matches doc h.old_side q → (q ≡ pos) ⊎ (pos ≡ h.old_start - 1))
locate_value doc h pos ne e =
    search_value doc h.old_side (h.old_start - 1) pos ne (sym (locate_search doc h ne) ∙ e)

-- A hunk with an old side is refused in exactly two ways: its old side stands nowhere in the file,
-- or it stands at two places at least and not at the declared position.
pub locate_reject :
    (doc : List Text) (h : Hunk)
    → h.old_side ≢ []
    → locate doc h ≡ reject
    → ((q : ℕ) → ¬ (Matches doc h.old_side q))
      ⊎ ((a : ℕ) × (b : ℕ) × (a < b)
          × Matches doc h.old_side a
          × Matches doc h.old_side b
          × ¬ (Matches doc h.old_side (h.old_start - 1)))
locate_reject doc h ne e =
    search_reject doc h.old_side (h.old_start - 1) ne (sym (locate_search doc h ne) ∙ e)

-- `locate` panics exactly when the old side of the hunk has more lines than the file: the slice that
-- it compares is then out of range.
pub locate_panic :
    (doc : List Text) (h : Hunk) → (locate doc h ≡ panic) ↔ (length doc < length h.old_side)
unfolding locate search_needle
locate_panic doc h = go h.old_side
  where
    go : (old : List Text) → (locate_side doc h.old_start old ≡ panic) ↔ (length doc < length old)
    go [] = ground arith
    go (line ∷ rest) =
        ground
          (arith, choose-ne-panic (h.old_start - 1) (found doc (line ∷ rest) (h.old_start - 1)))
