-- ===== src/Core/Patch/Whole.antt =====
-- `apply_patch` of patch.rs from the text of the file and of the diff to the new text.
use role_n.Prelude.{
  ◌+◌, ◌<◌, ◌≡◌, ap, ◌∙◌, ◌≢◌, false, some, List, [], ◌∷◌, length, contains, nat_eq, arith, All,
}
use role_n.Core.Types.{Text}
use role_n.Core.Patch.{
  value, panic, Hunk, apply_hunks, bottom_up, parse_hunks, apply_parsed, apply_patch, old_lines,
  finish,
}
use role_n.Core.Patch.Locate.{locate_panic}
use role_n.Core.Patch.Lines.{finish-old_lines}
use role_n.Core.Patch.Apply.{
  old_total, new_total, IsContext, >>=-eq-value, length-apply_hunks, apply_hunks-IsContext,
  tally-bottom_up, All-bottom_up,
}

-- The stages of a successful application.
apply_patch-stages :
    (old diff out : Text) (hunks : List Hunk)
    → parse_hunks diff ≡ some hunks
    → apply_patch old diff ≡ value out
    → (hunks ≢ [])
      × (doc : List Text) × (apply_hunks (bottom_up hunks) (old_lines old) ≡ value doc)
      × (out ≡ finish old doc)
unfolding apply_patch
apply_patch-stages old diff out [] p e = absurd (ground (arith, p))
apply_patch-stages old diff out (h ∷ hunks) p e =
    let parsed : apply_parsed old (h ∷ hunks) ≡ value out = ground (arith, p) in
    let (doc, a, q) =
      >>=-eq-value (apply_hunks (bottom_up (h ∷ hunks)) (old_lines old))
        (λ doc. value (finish old doc)) parsed in
    (ground arith, doc, a, ground (arith, q))

-- A diff that applies changes the number of lines by what its hunks add less what they remove: the
-- lines of the result are those of the file, less the old sides, plus the new sides.
pub patch_accounts_lines :
    (old diff out : Text) (hunks : List Hunk)
    → parse_hunks diff ≡ some hunks
    → apply_patch old diff ≡ value out
    → (doc : List Text) × (out ≡ finish old doc)
      × (length doc + old_total hunks ≡ length (old_lines old) + new_total hunks)
patch_accounts_lines old diff out hunks p e =
    let (_, doc, a, q) = apply_patch-stages old diff out hunks p e in
    (
      doc,
      q,
      omega (
        arith,
        length-apply_hunks (bottom_up hunks) (old_lines old) doc a,
        tally-bottom_up (λ h. length h.old_side) hunks,
        tally-bottom_up (λ h. length h.new_side) hunks,
      ),
    )

-- A diff with context lines only, if it applies to a non-empty text without carriage returns, gives
-- the same text back, its final newline or the lack of one included.
pub context_patch_identity :
    (old diff out : Text) (hunks : List Hunk)
    → parse_hunks diff ≡ some hunks
    → All IsContext hunks
    → old ≢ []
    → contains old 13 ≡ false
    → apply_patch old diff ≡ value out
    → out ≡ old
context_patch_identity old diff out hunks p c ne cr e =
    let (_, doc, a, q) = apply_patch-stages old diff out hunks p e in
    let same =
      apply_hunks-IsContext (bottom_up hunks) (old_lines old) doc (All-bottom_up hunks c) a in
    q ∙ ap (finish old) same ∙ finish-old_lines old ne cr

-- A diff of one hunk whose old side has more lines than the file makes `apply_patch` panic: it does
-- not reject the ticket.
pub short_file_panics :
    (old diff : Text) (h : Hunk)
    → parse_hunks diff ≡ some (h ∷ [])
    → length (old_lines old) < length h.old_side
    → apply_patch old diff ≡ panic
unfolding apply_patch
short_file_panics old diff h p short = ground (arith, p, (locate_panic (old_lines old) h).1 short)
