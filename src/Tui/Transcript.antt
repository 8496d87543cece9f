-- ===== src/Tui/Transcript.antt =====
-- `strip_ansi` of rolen-tui/src/transcript_view.rs, which takes the control sequences of a terminal out
-- of a transcript. Where the loop stands in a sequence is a mode; a character takes it to the next one.
mod Tests
use role_n.Prelude.{
  ℕ, Bool, true, false, not, ◌&&◌, List, [], ◌∷◌, ◌++◌, if◌then◌else◌, eqb, leb, filter, all, ◌≡◌,
  refl, arith, ap, sym, ◌∙◌,
}
use role_n.Core.Types.{Text}

pub data Mode : Type 0 where
  plain escape csi after_cr : Mode
  -- with the character before
  osc : ℕ → Mode

abbrev pub esc : ℕ
esc = 27

abbrev pub cr : ℕ
cr = 13

abbrev pub on_plain : ℕ → Text × Mode
on_plain c =
    if eqb c esc then ([], escape) else if eqb c cr then ([], after_cr) else (c ∷ [], plain)

-- What a character adds to the result, and the mode after it.
abbrev pub on_char : Mode → ℕ → Text × Mode
on_char plain c = on_plain c
on_char escape c = if eqb c b'[' then ([], csi) else if eqb c b']' then ([], osc 0) else ([], plain)
on_char csi c = ([], if leb b'@' c && leb c b'~' then plain else csi)
on_char (osc prev) c =
    ([], if eqb c 7 then plain else if eqb prev esc && eqb c 92 then plain else osc c)
on_char after_cr c = if eqb c b'\n' then (c ∷ [], plain) else on_plain c

unfoldable pub strip_from : Mode → Text → Text
strip_from mode [] = []
strip_from mode (c ∷ text) = let (out, mode') = on_char mode c in out ++ strip_from mode' text

unfoldable pub strip_ansi : Text → Text
unfolding strip_from
strip_ansi text = strip_from plain text

abbrev pub is_clean : ℕ → Bool
is_clean c = not (eqb c esc) && not (eqb c cr)

abbrev pub no_esc : ℕ → Bool
no_esc c = not (eqb c esc)

abbrev pub no_cr : ℕ → Bool
no_cr c = not (eqb c cr)

strip_from-clean : (mode : Mode) (text : Text) → all is_clean (strip_from mode text) ≡ true
unfolding strip_from
strip_from-clean mode [] = refl
strip_from-clean plain (c ∷ text) = ground (
  arith,
  strip_from-clean plain text,
  strip_from-clean escape text,
  strip_from-clean after_cr text,
)
strip_from-clean escape (c ∷ text) =
    ground
      (arith, strip_from-clean csi text, strip_from-clean (osc 0) text, strip_from-clean plain text)
strip_from-clean csi (c ∷ text) =
    ground (arith, strip_from-clean csi text, strip_from-clean plain text)
strip_from-clean (osc prev) (c ∷ text) =
    ground (arith, strip_from-clean (osc c) text, strip_from-clean plain text)
strip_from-clean after_cr (c ∷ text) = ground (
  arith,
  strip_from-clean plain text,
  strip_from-clean escape text,
  strip_from-clean after_cr text,
)

strip_from-no_esc :
    (text : Text)
    → all no_esc text ≡ true
    → (strip_from plain text ≡ filter no_cr text) × (strip_from after_cr text ≡ filter no_cr text)
unfolding strip_from
strip_from-no_esc [] h = (refl, refl)
strip_from-no_esc (c ∷ text) h = ground (arith, h, strip_from-no_esc text)

filter-clean :
    (text : Text) → all is_clean text ≡ true → (all no_esc text ≡ true) × (filter no_cr text ≡ text)
filter-clean [] h = (refl, refl)
filter-clean (c ∷ text) h = ground (arith, h, filter-clean text)

-- The parameters of a sequence: no character from `@` to `~`.
abbrev pub is_parameter : ℕ → Bool
is_parameter c = not (leb b'@' c && leb c b'~')

strip_from-csi :
    (params : Text) (last : ℕ) (text : Text)
    → all is_parameter params ≡ true
    → is_parameter last ≡ false
    → strip_from csi (params ++ last ∷ text) ≡ strip_from plain text
unfolding strip_from
strip_from-csi [] last text h l = ground (arith, l)
strip_from-csi (c ∷ params) last text h l = ground (arith, h, strip_from-csi params last text)

strip_from-escape : (text : Text) → strip_from plain (esc ∷ b'[' ∷ text) ≡ strip_from csi text
unfolding strip_from
strip_from-escape text = refl

strip_from-append :
    (a b : Text) → all is_clean a ≡ true → strip_from plain (a ++ b) ≡ a ++ strip_from plain b
unfolding strip_from
strip_from-append [] b h = refl
strip_from-append (c ∷ a) b h = ground (arith, h, strip_from-append a b)

strip_from-sequence :
    (before params after : Text) (last : ℕ)
    → all is_clean before ≡ true
    → all is_parameter params ≡ true
    → is_parameter last ≡ false
    → strip_from plain (before ++ esc ∷ b'[' ∷ (params ++ last ∷ after))
      ≡ strip_from plain (before ++ after)
strip_from-sequence before params after last hb hp hl =
    strip_from-append before (esc ∷ b'[' ∷ (params ++ last ∷ after)) hb
    ∙ ap (λ t. before ++ t) (strip_from-escape (params ++ last ∷ after))
    ∙ ap (λ t. before ++ t) (strip_from-csi params last after hp hl)
    ∙ sym (strip_from-append before after hb)

-- Stripping a transcript leaves no escape character and no carriage return, whatever the text is; a
-- second time it changes nothing; from a text without escapes it takes the carriage returns and
-- nothing else; and of a text with a CSI sequence after a part without escapes and carriage returns,
-- exactly the sequence goes, up to its last character.
pub strip_ansi_lem :
    (text quiet before params after : Text) (last : ℕ)
    → all no_esc quiet ≡ true
    → all is_clean before ≡ true
    → all is_parameter params ≡ true
    → is_parameter last ≡ false
    → (all is_clean (strip_ansi text) ≡ true)
      × (strip_ansi (strip_ansi text) ≡ strip_ansi text)
      × (strip_ansi quiet ≡ filter no_cr quiet)
      × (strip_ansi (before ++ esc ∷ b'[' ∷ (params ++ last ∷ after))
          ≡ strip_ansi (before ++ after))
unfolding strip_ansi
strip_ansi_lem text quiet before params after last hq hb hp hl =
    let clean = strip_from-clean plain text in
    let (no_escape, whole) = filter-clean (strip_from plain text) clean in
    (
      clean,
      (strip_from-no_esc (strip_from plain text) no_escape).0 ∙ whole,
      (strip_from-no_esc quiet hq).0,
      strip_from-sequence before params after last hb hp hl,
    )
