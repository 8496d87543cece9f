-- ===== src/Tui/RuleEditor/Chain.antt =====
-- The fallback chain in rule_editor.rs: moving an entry.
use mathlib.Core.List.{Perm}
use mathlib.Core.List.Perm
use role_n.Prelude.{
  ℕ, zero, suc, ap, sym, subst, ◌∙◌, Option-cases, ◌+◌, ◌<◌, ◌≡◌, refl, Option, none, some, List,
  [], ◌∷◌, ltb, length, get_elem?, arith, Bool-cases, inl, inr, ◌⊎◌,
}
use role_n.Core.Types.{Text}
use role_n.Tui.RuleEditor.{RuleEditorDialog, refreshed}
use role_n.Tui.RuleEditor.Edit.{
  chain_index, with_chain, swap_next, Direction, up, down, move_from, chain_move,
}

module _ {ℓ} {A : Type ℓ} where
  swap_next-Perm : (n : ℕ) (xs : List A) → Perm xs (swap_next n xs)
  unfolding swap_next
  swap_next-Perm n [] = Perm.refl []
  swap_next-Perm zero (x ∷ []) = Perm.refl (x ∷ [])
  swap_next-Perm zero (x ∷ y ∷ xs) = Perm.swap y x xs
  swap_next-Perm (suc n) (x ∷ xs) = Perm.cons x (swap_next-Perm n xs)

  length-swap_next : (n : ℕ) (xs : List A) → length (swap_next n xs) ≡ length xs
  unfolding swap_next
  length-swap_next n [] = refl
  length-swap_next zero (x ∷ []) = refl
  length-swap_next zero (x ∷ y ∷ xs) = refl
  length-swap_next (suc n) (x ∷ xs) = omega (arith, length-swap_next n xs)

  swap_next-swap_next : (n : ℕ) (xs : List A) → swap_next n (swap_next n xs) ≡ xs
  unfolding swap_next
  swap_next-swap_next n [] = refl
  swap_next-swap_next zero (x ∷ []) = refl
  swap_next-swap_next zero (x ∷ y ∷ xs) = refl
  swap_next-swap_next (suc n) (x ∷ xs) = rw (swap_next-swap_next n xs) refl

  get_elem?-swap_next :
      (n : ℕ) (xs : List A)
      → suc n < length xs
      → (get_elem? (swap_next n xs) n ≡ get_elem? xs (suc n))
        × (get_elem? (swap_next n xs) (suc n) ≡ get_elem? xs n)
  unfolding swap_next
  get_elem?-swap_next n [] h = ground arith
  get_elem?-swap_next zero (x ∷ []) h = ground arith
  get_elem?-swap_next zero (x ∷ y ∷ xs) h = (refl, refl)
  get_elem?-swap_next (suc n) (x ∷ xs) h = get_elem?-swap_next n xs (omega arith)

abbrev opposite : Direction → Direction
opposite up = down
opposite down = up

abbrev pub selected : RuleEditorDialog → Option Text
selected e = elim (chain_index e) [ none ↦ none | some i ↦ get_elem? e.chain i ]

refreshed-below : (n i : ℕ) → i < n → refreshed n (some i) ≡ some i
refreshed-below zero i h = ground arith
refreshed-below (suc n) i h = ground arith

chain_index-with_chain :
    (chain : List Text) (i : ℕ) (e : RuleEditorDialog)
    → i < length chain
    → chain_index (with_chain chain (some i) e) ≡ some i
chain_index-with_chain chain i e h = rw (refreshed-below (length chain) i h) (ground arith)

chain_index-below : (e : RuleEditorDialog) (i : ℕ) → chain_index e ≡ some i → i < length e.chain
chain_index-below e i h = ground (arith, h)

chain_move-at :
    (way : Direction) (e : RuleEditorDialog) (o : Option ℕ)
    → chain_index e ≡ o
    → chain_move way e ≡ move_from way o e
unfolding chain_move
chain_move-at way e o h = ap (λ at. move_from way at e) h

chain_move-up :
    (e : RuleEditorDialog) (j : ℕ)
    → chain_index e ≡ some (suc j)
    → chain_move up e ≡ with_chain (swap_next j e.chain) (some j) e
unfolding move_from
chain_move-up e j h = chain_move-at up e (some (suc j)) h

chain_move-down :
    (e : RuleEditorDialog) (i : ℕ)
    → chain_index e ≡ some i
    → i + 1 < length e.chain
    → chain_move down e ≡ with_chain (swap_next i e.chain) (some (i + 1)) e
unfolding move_from
chain_move-down e i h l = chain_move-at down e (some i) h ∙ ground (arith, l)

selected-at :
    (e : RuleEditorDialog) (i : ℕ) → chain_index e ≡ some i → selected e ≡ get_elem? e.chain i
selected-at e i h = ground (arith, h)

-- What a move of the selected entry does.
abbrev pub Moved : Direction → RuleEditorDialog → Type 0
Moved way e =
    Perm e.chain (chain_move way e).chain
    × (selected (chain_move way e) ≡ selected e)
    × (((chain_move way e).chain ≡ e.chain)
        ⊎ ((chain_move (opposite way) (chain_move way e)).chain ≡ e.chain))

chain_move-Moved_up : (e : RuleEditorDialog) (j : ℕ) → chain_index e ≡ some (suc j) → Moved up e
chain_move-Moved_up e j h =
    let below = chain_index-below e (suc j) h in
    let l = length-swap_next j e.chain in
    let e' = with_chain (swap_next j e.chain) (some j) e in
    let h' : chain_index e' ≡ some j =
      chain_index-with_chain (swap_next j e.chain) j e (omega arith) in
    let back : chain_move down e' ≡ with_chain (swap_next j e'.chain) (some (j + 1)) e' =
      chain_move-down e' j h' (omega arith) in
    rw (chain_move-up e j h) (
      swap_next-Perm j e.chain,
      selected-at e' j h' ∙ (get_elem?-swap_next j e.chain below).0 ∙ sym (selected-at e (suc j) h),
      inr (ap (λ (d : RuleEditorDialog). d.chain) back ∙ swap_next-swap_next j e.chain),
    )

chain_move-Moved_down :
    (e : RuleEditorDialog) (i : ℕ) → chain_index e ≡ some i → i + 1 < length e.chain → Moved down e
chain_move-Moved_down e i h below =
    let l = length-swap_next i e.chain in
    let e' = with_chain (swap_next i e.chain) (some (i + 1)) e in
    let h' : chain_index e' ≡ some (i + 1) =
      chain_index-with_chain (swap_next i e.chain) (i + 1) e (omega arith) in
    let next : i + 1 ≡ suc i = omega arith in
    let back : chain_move up e' ≡ with_chain (swap_next i e'.chain) (some i) e' =
      chain_move-up e' i (h' ∙ ap some next) in
    rw (chain_move-down e i h below) (
      swap_next-Perm i e.chain,
      selected-at e' (suc i) (h' ∙ ap some next)
          ∙ (get_elem?-swap_next i e.chain (omega arith)).1
          ∙ sym (selected-at e i h),
      inr (ap (λ (d : RuleEditorDialog). d.chain) back ∙ swap_next-swap_next i e.chain),
    )

chain_move-Moved_none :
    (way : Direction) (e : RuleEditorDialog)
    → ((chain_move way e).chain ≡ e.chain) × (selected (chain_move way e) ≡ selected e)
    → Moved way e
chain_move-Moved_none way e (c, s) = (subst (Perm e.chain) (sym c) (Perm.refl e.chain), s, inl c)

-- Moving an entry of the chain up or down, at the ends and without a selection too: the chain keeps
-- its entries, the same entry stays selected, and either nothing has moved or the opposite move brings
-- the chain back.
pub chain_move_lem : (way : Direction) (e : RuleEditorDialog) → Moved way e
unfolding move_from
chain_move_lem up e = elim (Option-cases (chain_index e)) [
  | inl h ↦
      let same = chain_move-at up e none h in chain_move-Moved_none up e (ground (arith, same))
  | inr (i, h) ↦
      elim i as (λ i. chain_index e ≡ some i → Moved up e) [
        | zero ↦ λ h.
            let same = chain_move-at up e (some 0) h in
            chain_move-Moved_none up e (rw same (refl, refl))
        | suc j ↦ λ h. chain_move-Moved_up e j h
      ]
        h
]
chain_move_lem down e = elim (Option-cases (chain_index e)) [
  | inl h ↦
      let same = chain_move-at down e none h in chain_move-Moved_none down e (ground (arith, same))
  | inr (i, h) ↦ elim (Bool-cases (ltb (i + 1) (length e.chain))) [
    | inl l ↦ chain_move-Moved_down e i h (ground (arith, l))
    | inr l ↦
        let same : chain_move down e ≡ e = chain_move-at down e (some i) h ∙ rw l refl in
        chain_move-Moved_none down e (rw same (refl, refl))
  ]
]
