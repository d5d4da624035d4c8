-- ===== src/Indent/Tests.antt =====
-- Indentation at a few texts.
use mysyncfiles.Prelude.{◌≡◌, ◌⊎◌, refl, codes, replicate, ◌++◌, ◌∷◌, []}
use mysyncfiles.Indent.Laws.{IsUnit, IsAligned, indentation_lem, AreLaid, guides-AreLaid}
use mysyncfiles.Indent.{indentation, guides, tab_unit, space_unit}

indentation_runs :
    indentation (codes "if a:" ++ 10 ∷ codes "  b" ++ 10 ∷ codes "    c") ≡ replicate 2 space_unit
unfolding indentation
indentation_runs = refl

guides_run : guides 2 0 0 0 (32 ∷ 32 ∷ 9 ∷ 32 ∷ []) ≡ (0, 2) ∷ (2, 3) ∷ []
unfolding guides
guides_run = refl

indentation_lem_example :
    (indentation (codes "  a") ≡ tab_unit ∷ [])
    ⊎ (IsUnit (indentation (codes "  a")) × IsAligned (indentation (codes "  a")) 3)
indentation_lem_example = indentation_lem (codes "  a") 3

guides-AreLaid_example : AreLaid 0 4 (guides 2 0 0 0 (32 ∷ 32 ∷ 9 ∷ 32 ∷ []))
guides-AreLaid_example = guides-AreLaid 2 (32 ∷ 32 ∷ 9 ∷ 32 ∷ [])
