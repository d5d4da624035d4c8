-- ===== src/Indent/Laws.antt =====
-- What the Tab key and the guides do to the columns of a line.
use mysyncfiles.Prelude.{
  ℕ, zero, suc, ◌+◌, ◌-◌, ◌*◌, ◌%◌, ◌≡◌, ◌≤◌, ◌<◌, refl, Bool, true, false, List, [], ◌∷◌, length,
  replicate, length-replicate, map, Text, ltb, if◌then◌else◌, arith, ◌⊎◌, inl, inr, subst,
}
use mysyncfiles.Indent.{
  tab_unit, space_unit, width_of, filter_texts, is_spaces, starts_with_tab, indents_of, unit_of,
  indentation, spaces_for, guides, tab_spaces, tab_size,
}

abbrev IsWidth : ℕ → Type 0
IsWidth w = (w ≡ 2) ⊎ (w ≡ 4) ⊎ (w ≡ 8)

spaces_for-IsWidth : (w : ℕ) → IsWidth (spaces_for w)
unfolding spaces_for
spaces_for-IsWidth w = ground arith

-- A tab, or two, four or eight spaces.
abbrev pub IsUnit : Text → Type 0
IsUnit t = (t ≡ tab_unit ∷ []) ⊎ ((w : ℕ) × IsWidth w × (t ≡ replicate w space_unit))

if-IsUnit :
    (b : Bool) (w : ℕ) → IsUnit (if b then tab_unit ∷ [] else replicate (spaces_for w) space_unit)
if-IsUnit true w = inl refl
if-IsUnit false w = inr (spaces_for w, spaces_for-IsWidth w, refl)

unit_of-IsUnit : (ts : List Text) → IsUnit (unit_of ts)
unfolding unit_of
unit_of-IsUnit ts =
    if-IsUnit (ltb (length ts) (2 * length (filter_texts starts_with_tab ts)))
      (width_of (map length (filter_texts is_spaces ts)))

aligned : (w c : ℕ) → IsWidth w → ((c + (w - c % w)) % w ≡ 0) × (1 ≤ w - c % w) × (w - c % w ≤ w)
aligned w c (inl e) = rw e (omega arith, omega arith, omega arith)
aligned w c (inr (inl e)) = rw e (omega arith, omega arith, omega arith)
aligned w c (inr (inr e)) = rw e (omega arith, omega arith, omega arith)

-- What the Tab key does at a column: it inserts at least one space, and at most a unit, and the
-- cursor is then at a multiple of the tab size.
pub record IsAligned (unit : Text) (column : ℕ) : Type 0 where
  pub multiple : (column + length (tab_spaces unit column)) % tab_size unit ≡ 0
  pub some_space : 1 ≤ length (tab_spaces unit column)
  pub one_unit : length (tab_spaces unit column) ≤ tab_size unit

spaces-no_tab : (n : ℕ) → starts_with_tab (replicate n space_unit) ≡ false
unfolding starts_with_tab
spaces-no_tab zero = refl
spaces-no_tab (suc n) = refl

width-IsAligned : (w column : ℕ) → IsWidth w → IsAligned (replicate w space_unit) column
unfolding tab_spaces tab_size
width-IsAligned w column h =
    let (multiple, some_space, one_unit) = aligned w column h in
    let size : length (replicate w space_unit) ≡ w = length-replicate w space_unit in
    let spaces : (if starts_with_tab (replicate w space_unit)
          then 4
          else length (replicate w space_unit))
        ≡ w =
      rw (spaces-no_tab w) size in
    record {
      multiple =
          rw
            (
              length-replicate
                  (length (replicate w space_unit) - column % length (replicate w space_unit))
                  space_unit,
              spaces,
              size,
            )
            multiple;
      some_space =
          rw
            (
              length-replicate
                  (length (replicate w space_unit) - column % length (replicate w space_unit))
                  space_unit,
              size,
            )
            some_space;
      one_unit =
          rw
            (
              length-replicate
                  (length (replicate w space_unit) - column % length (replicate w space_unit))
                  space_unit,
              spaces,
              size,
            )
            one_unit;
    }

-- The unit that a text suggests is a tab, or the Tab key aligns the cursor to it at every column.
pub indentation_lem :
    (text : Text) (column : ℕ)
    → (indentation text ≡ tab_unit ∷ [])
      ⊎ (IsUnit (indentation text) × IsAligned (indentation text) column)
unfolding indentation
indentation_lem text column = elim (unit_of-IsUnit (indents_of text)) [
  | inl tab ↦ inl tab
  | inr spaces ↦ inr (inr spaces, rw spaces.2 (width-IsAligned spaces.0 column spaces.1))
]

-- Marks that are nonempty, that each begin where the last one ended, and that stay within a line.
abbrev pub AreLaid : ℕ → ℕ → List (ℕ × ℕ) → Type 0
AreLaid from stop [] = Unit
AreLaid from stop ((a, b) ∷ marks) = (a ≡ from) × (a < b) × (b ≤ stop) × AreLaid b stop marks

guides-AreLaid_from :
    (width from i column : ℕ) (prefix : Text)
    → from ≤ i
    → AreLaid from (i + length prefix) (guides width from i column prefix)
unfolding guides
guides-AreLaid_from width from i column [] h = tt
guides-AreLaid_from width from i column (c ∷ t) h =
    laid (ltb column 256) _ _ _
      (shift (i + 1) _ (guides-AreLaid_from width (i + 1) (i + 1) _ t (omega arith)))
      (shift from _ (guides-AreLaid_from width from (i + 1) _ t (omega (arith, h))))
  where
    shift :
        (from : ℕ) (marks : List (ℕ × ℕ))
        → AreLaid from (i + 1 + length t) marks
        → AreLaid from (i + suc (length t)) marks
    shift from marks l =
        let e : i + 1 + length t ≡ i + suc (length t) = omega arith in
        subst (λ n. AreLaid from n marks) e l

    laid :
        (more full : Bool) (marked unmarked : List (ℕ × ℕ))
        → AreLaid (i + 1) (i + suc (length t)) marked
        → AreLaid from (i + suc (length t)) unmarked
        → AreLaid from
            (i + suc (length t))
            (if more then (if full then (from, i + 1) ∷ marked else unmarked) else [])
    laid true true ms us m u = (refl, omega (arith, h), omega arith, m)
    laid true false ms us m u = u
    laid false full ms us m u = tt

-- The guides of a line are nonempty, follow one another from the start of the line, and stay within
-- its indentation.
pub guides-AreLaid :
    (width : ℕ) (prefix : Text) → AreLaid 0 (length prefix) (guides width 0 0 0 prefix)
guides-AreLaid width prefix =
    let e : 0 + length prefix ≡ length prefix = omega arith in
    subst (λ n. AreLaid 0 n (guides width 0 0 0 prefix)) e
      (guides-AreLaid_from width 0 0 0 prefix (omega arith))
