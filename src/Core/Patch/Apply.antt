-- ===== src/Core/Patch/Apply.antt =====
-- What the application of hunks does to the lines of a file (`apply_patch` of patch.rs).
use role_n.Prelude.{
  ℕ, ◌+◌, ◌≤◌, ◌≡◌, refl, sym, ap, ◌∙◌, List, [], ◌∷◌, ◌++◌, length, take, drop, length-append,
  length-take, take-append-drop, drop-add, nat_eq, arith, tally, All,
}
use role_n.Core.Types.{Text}
use role_n.Core.Patch.{
  Attempt, value, reject, panic, ◌>>=◌, Hunk, locate, locate_side, splice, apply_hunks, bottom_up,
  insert_hunk,
}
use role_n.Core.Patch.Locate.{Matches, locate_value}

take-drop-drop :
    (doc : List Text) (pos n : ℕ)
    → take pos doc ++ (take n (drop pos doc) ++ drop (pos + n) doc) ≡ doc
take-drop-drop doc pos n =
    rw (drop-add, take-append-drop n (drop pos doc)) (take-append-drop pos doc)

-- Where a hunk is located its old side stands, also when it is empty.
locate-Matches :
    (doc : List Text) (h : Hunk) (pos : ℕ)
    → locate doc h ≡ value pos
    → Matches doc h.old_side pos × (pos + length h.old_side ≤ length doc)
unfolding locate
locate-Matches doc h pos e = go h.old_side e
  where
    go :
        (old : List Text)
        → locate_side doc h.old_start old ≡ value pos
        → Matches doc old pos × (pos + length old ≤ length doc)
    go [] q = (refl, ground arith)
    go (line ∷ rest) q =
        let g : Hunk = record { old_start = h.old_start; old_side = line ∷ rest; new_side = [] } in
        let (m, b, _) = locate_value doc g pos (λ n. ground arith) q in (m, b)

-- A hunk that is located at `pos` replaces its old side there by its new side: the `pos` lines before
-- and all lines behind stay as they are.
pub splice_replaces :
    (doc : List Text) (h : Hunk) (pos : ℕ)
    → locate doc h ≡ value pos
    → (before : List Text) × (after : List Text) × (length before ≡ pos)
      × (doc ≡ before ++ (h.old_side ++ after))
      × (splice doc pos h ≡ before ++ (h.new_side ++ after))
unfolding splice
splice_replaces doc h pos e =
    let (m, b) = locate-Matches doc h pos e in
    (
      take pos doc,
      drop (pos + length h.old_side) doc,
      omega (arith, b, length-take pos doc),
      sym (
          ap (λ x. take pos doc ++ (x ++ drop (pos + length h.old_side) doc)) (sym m)
          ∙ take-drop-drop doc pos (length h.old_side)),
      refl,
    )

length-splice :
    (doc : List Text) (h : Hunk) (pos : ℕ)
    → locate doc h ≡ value pos
    → length (splice doc pos h) + length h.old_side ≡ length doc + length h.new_side
length-splice doc h pos e =
    let (before, after, _, p, q) = splice_replaces doc h pos e in
    omega (
      arith,
      ap length p,
      ap length q,
      length-append before (h.old_side ++ after),
      length-append h.old_side after,
      length-append before (h.new_side ++ after),
      length-append h.new_side after,
    )

abbrev pub old_total : List Hunk → ℕ
old_total = tally (λ h. length h.old_side)

abbrev pub new_total : List Hunk → ℕ
new_total = tally (λ h. length h.new_side)

pub >>=-eq-value :
    {A B : Type 0} (m : Attempt A) (f : A → Attempt B) {b : B}
    → (m >>= f) ≡ value b
    → (a : A) × (m ≡ value a) × (f a ≡ value b)
>>=-eq-value (value a) f e = (a, refl, e)
>>=-eq-value reject f e = cc
>>=-eq-value panic f e = cc

pub length-apply_hunks :
    (hunks : List Hunk) (doc out : List Text)
    → apply_hunks hunks doc ≡ value out
    → length out + old_total hunks ≡ length doc + new_total hunks
unfolding apply_hunks
length-apply_hunks [] doc out e = ground arith
length-apply_hunks (h ∷ hunks) doc out e =
    let (pos, l, r) = >>=-eq-value (locate doc h) (λ pos. apply_hunks hunks (splice doc pos h)) e in
    omega (arith, length-splice doc h pos l, length-apply_hunks hunks (splice doc pos h) out r)

abbrev pub IsContext : Hunk → Type 0
IsContext h = h.new_side ≡ h.old_side

pub apply_hunks-IsContext :
    (hunks : List Hunk) (doc out : List Text)
    → All IsContext hunks
    → apply_hunks hunks doc ≡ value out
    → out ≡ doc
unfolding apply_hunks
apply_hunks-IsContext [] doc out c e = ground arith
apply_hunks-IsContext (h ∷ hunks) doc out (same, c) e =
    let (pos, l, r) = >>=-eq-value (locate doc h) (λ pos. apply_hunks hunks (splice doc pos h)) e in
    let (before, after, _, p, q) = splice_replaces doc h pos l in
    apply_hunks-IsContext hunks (splice doc pos h) out c r ∙ ground (arith, same, p, q)

tally-insert_hunk :
    (w : Hunk → ℕ) (h : Hunk) (hunks : List Hunk)
    → tally w (insert_hunk h hunks) ≡ w h + tally w hunks
unfolding insert_hunk
tally-insert_hunk w h [] = refl
tally-insert_hunk w h (g ∷ hunks) = ground (arith, tally-insert_hunk w h hunks)

pub tally-bottom_up : (w : Hunk → ℕ) (hunks : List Hunk) → tally w (bottom_up hunks) ≡ tally w hunks
unfolding bottom_up
tally-bottom_up w [] = refl
tally-bottom_up w (h ∷ hunks) =
    omega (arith, tally-insert_hunk w h (bottom_up hunks), tally-bottom_up w hunks)

All-insert_hunk :
    (h : Hunk) (hunks : List Hunk)
    → IsContext h
    → All IsContext hunks
    → All IsContext (insert_hunk h hunks)
unfolding insert_hunk
All-insert_hunk h [] c cs = (c, tt)
All-insert_hunk h (g ∷ hunks) c cs = ground (arith, All-insert_hunk h hunks c cs.1)

pub All-bottom_up : (hunks : List Hunk) → All IsContext hunks → All IsContext (bottom_up hunks)
unfolding bottom_up
All-bottom_up [] c = tt
All-bottom_up (h ∷ hunks) (c, cs) = All-insert_hunk h (bottom_up hunks) c (All-bottom_up hunks cs)
