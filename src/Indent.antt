-- ===== src/Indent.antt =====
-- Indentation in the editor (web/editor-src/code.js): the unit that a text suggests, the guides, and
-- the Tab key.
pub mod Laws
mod Tests
use mysyncfiles.Prelude.{
  ℕ, zero, suc, ◌+◌, ◌-◌, ◌*◌, ◌/◌, ◌%◌, ◌≡◌, ◌≤◌, Bool, true, false, not, ◌&&◌, ◌||◌, List, [],
  ◌∷◌, ◌++◌, map, length, replicate, all, any, Text, ltb, leb, ◌==◌, if◌then◌else◌, arith, min,
}

abbrev pub tab_unit : ℕ
tab_unit = 9

abbrev pub space_unit : ℕ
space_unit = 32

-- `text.split("\n")`
unfoldable pub split_lines : Text → List Text
split_lines [] = [] ∷ []
split_lines (c ∷ t) = let rest = split_lines t in if c == 10 then [] ∷ rest else onto c rest
  where
    onto : ℕ → List Text → List Text
    onto c [] = (c ∷ []) ∷ []
    onto c (l ∷ ls) = (c ∷ l) ∷ ls

-- The units of `\s`.
unfoldable pub is_white : ℕ → Bool
is_white c =
    (leb 9 c && leb c 13)
    || c == 32
    || c == 160
    || c == 5760
    || (leb 8192 c && leb c 8202)
    || c == 8232
    || c == 8233
    || c == 8239
    || c == 8287
    || c == 12288
    || c == 65279

-- `/\S/.test(line)`
unfoldable pub has_visible : Text → Bool
unfolding is_white
has_visible [] = false
has_visible (c ∷ t) = not (is_white c) || has_visible t

-- `line.match(/^[\t ]*/)[0]`
unfoldable pub indent_of : Text → Text
indent_of [] = []
indent_of (c ∷ t) =
    let rest = indent_of t in if c == tab_unit || c == space_unit then c ∷ rest else []

unfoldable pub filter_texts : (Text → Bool) → List Text → List Text
filter_texts p [] = []
filter_texts p (t ∷ ts) = let rest = filter_texts p ts in if p t then t ∷ rest else rest

unfoldable pub is_empty : Text → Bool
is_empty [] = true
is_empty (c ∷ t) = false

-- `value[0] === "\t"`
unfoldable pub starts_with_tab : Text → Bool
starts_with_tab [] = false
starts_with_tab (c ∷ t) = c == tab_unit

-- `/^ +$/.test(value)`
unfoldable pub is_spaces : Text → Bool
unfolding is_empty
is_spaces t = not (is_empty t) && all (λ c. c == space_unit) t

-- `Math.min(...widths)`, of a first and the other widths.
unfoldable pub least : ℕ → List ℕ → ℕ
least n [] = n
least n (m ∷ ms) = least (min n m) ms

-- `widths.length ? Math.min(...widths) : 4`
unfoldable pub width_of : List ℕ → ℕ
unfolding least
width_of [] = 4
width_of (n ∷ ns) = least n ns

-- `lines` and `indents`.
unfoldable pub indents_of : Text → List Text
unfolding split_lines has_visible indent_of filter_texts is_empty
indents_of text =
    filter_texts (λ t. not (is_empty t))
      (map indent_of (filter_texts has_visible (split_lines text)))

-- The number of spaces of a unit, for the least width that is observed.
unfoldable pub spaces_for : ℕ → ℕ
spaces_for width = if width == 2 || width == 4 || width == 8 then width else 4

unfoldable pub unit_of : List Text → Text
unfolding filter_texts starts_with_tab is_spaces width_of spaces_for
unit_of indents =
    let width = width_of (map length (filter_texts is_spaces indents)) in
    if ltb (length indents) (2 * length (filter_texts starts_with_tab indents))
    then tab_unit ∷ []
    else replicate (spaces_for width) space_unit

unfoldable pub indentation : Text → Text
unfolding indents_of unit_of
indentation text = unit_of (indents_of text)

-- The tab size of the editor's state, for a unit.
unfoldable pub tab_size : Text → ℕ
unfolding starts_with_tab
tab_size unit = if starts_with_tab unit then 4 else length unit

-- The inner loop of the guides' `build`: `from` is where the next mark starts, `i` the index in the
-- prefix, `column` the column so far. A mark is a pair of offsets in the line.
unfoldable pub guides : ℕ → ℕ → ℕ → ℕ → Text → List (ℕ × ℕ)
guides width from i column [] = []
guides width from i column (c ∷ t) =
    let column' = if c == tab_unit then column + (width - column % width) else column + 1 in
    let marked = guides width (i + 1) (i + 1) column' t in
    let unmarked = guides width from (i + 1) column' t in
    if ltb column 256
    then (if column' % width == 0 then (from, i + 1) ∷ marked else unmarked)
    else []

-- What the Tab key inserts at an empty selection, at a column, when the unit is of spaces.
unfoldable pub tab_spaces : Text → ℕ → Text
tab_spaces unit column = replicate (length unit - column % length unit) space_unit
