-- ===== src/Tui/Transcript/Tests.antt =====
-- A transcript with colours and carriage returns.
use role_n.Prelude.{[], ◌∷◌, ◌++◌, filter, all, true, ◌≡◌, refl}
use role_n.Core.Types.{Text}
use role_n.Core.Text.{codes}
use role_n.Tui.Transcript.{esc, cr, strip_ansi, strip_ansi_lem, is_clean, no_cr}

abbrev colored : Text
colored = esc ∷ codes "[31mred" ++ esc ∷ codes "[0m" ++ cr ∷ 10 ∷ codes "next"

strip_ansi-colored : strip_ansi colored ≡ codes "red" ++ 10 ∷ codes "next"
unfolding strip_ansi
strip_ansi-colored = refl

strip_ansi-title : strip_ansi (esc ∷ codes "]0;title" ++ 7 ∷ codes "text") ≡ codes "text"
unfolding strip_ansi
strip_ansi-title = refl

strip_ansi_lem_example :
    (all is_clean (strip_ansi colored) ≡ true)
    × (strip_ansi (strip_ansi colored) ≡ strip_ansi colored)
    × (strip_ansi (97 ∷ cr ∷ 98 ∷ []) ≡ filter no_cr (97 ∷ cr ∷ 98 ∷ []))
    × (strip_ansi (codes "ok " ++ esc ∷ b'[' ∷ (codes "1;31" ++ b'm' ∷ codes "bold"))
        ≡ strip_ansi (codes "ok " ++ codes "bold"))
strip_ansi_lem_example =
    strip_ansi_lem colored (97 ∷ cr ∷ 98 ∷ []) (codes "ok ") (codes "1;31") (codes "bold") b'm' refl
      refl refl refl
