-- ===== src/Files/Drawn.antt =====
-- What `load` draws of a listing (web/atlas.js): the rows with their icons, sizes and marks, and when
-- the rows that are there are kept. Numbers and times are written in the locale, and `lower` is
-- `toLocaleLowerCase("fr")`.
use mysyncfiles.Prelude.{
  ℕ, zero, suc, ◌+◌, ◌*◌, ◌^◌, Bool, true, false, ◌&&◌, ◌||◌, Option, none, some, List, [], ◌∷◌,
  map, Text, String, codes, ends_with, length, take, drop, ltb, ◌==◌, if◌then◌else◌,
}
use mysyncfiles.Indent.{is_empty}
use mysyncfiles.Value.{Value, is_null, safe_nat, is_text}
use mysyncfiles.Http.{optional}
use mysyncfiles.Files.State.{View, Shown}
use mysyncfiles.Files.Listing.{query_of}
use mysyncfiles.Files.Selection.{is_folder, same_query, same_entries}
use mysyncfiles.Files.Browse.{basename, path_of, editable, is_pdf}
use mysyncfiles.Files.Menu.{nat_of}

-- `kindIcon`
pub data Icon : Type 0 where
  directory pdf source file : Icon

unfoldable pub ends_with_any : Text → List String → Bool
ends_with_any t [] = false
ends_with_any t (s ∷ ss) = ends_with t s || ends_with_any t ss

unfoldable pub kind_icon : Value → Icon
unfolding is_folder is_pdf path_of ends_with_any
kind_icon v =
    if is_folder v
    then directory
    else if is_pdf v
    then pdf
    else if ends_with_any (path_of v)
        (".toml" ∷ ".json" ∷ ".lock" ∷ ".rs" ∷ ".js" ∷ ".yaml" ∷ ".yml" ∷ ".xml" ∷ [])
    then source
    else file

-- `size`: the number of bytes over 1024 to the unit, written with at most some digits after the point.
pub data Size : Type 0 where
  dash : Size
  amount : ℕ → ℕ → ℕ → Size

-- The loop, with the rounds that are left; the value is `bytes / 1024 ^ unit`, which is exact.
unfoldable pub scale : ℕ → ℕ → ℕ → ℕ
scale zero bytes unit = unit
scale (suc rounds) bytes unit =
    let rest = scale rounds bytes (unit + 1) in if ltb bytes (1024 ^ (unit + 1)) then unit else rest

unfoldable pub digits_of : ℕ → ℕ → ℕ
digits_of bytes unit = if ltb bytes (10 * 1024 ^ unit) && ltb 0 unit then 1 else 0

unfoldable pub amount_of : ℕ → Size
unfolding scale digits_of
amount_of bytes = amount bytes (scale 5 bytes 0) (digits_of bytes (scale 5 bytes 0))

unfoldable pub size_of : Value → Size
unfolding amount_of nat_of
size_of v = if is_null v then dash else amount_of (nat_of (safe_nat v))

-- `highlighted`: a text with the part that a search has found, or as it is.
pub data Marked : Type 0 where
  plain : Text → Marked
  marked : Text → Text → Text → Marked

unfoldable pub starts_with : Text → Text → Bool
starts_with [] t = true
starts_with (c ∷ s) [] = false
starts_with (c ∷ s) (d ∷ t) = c == d && starts_with s t

-- `indexOf`
unfoldable pub index_of : Text → Text → Option ℕ
unfolding starts_with
index_of s [] = if starts_with s [] then some 0 else none
index_of s (d ∷ t) =
    let rest = index_of s t in
    if starts_with s (d ∷ t) then some 0 else elim rest [ none ↦ none | some n ↦ some (suc n) ]

unfoldable pub mark_at : Text → Text → Option ℕ → Marked
mark_at search text none = plain text
mark_at search text (some n) =
    marked (take n text) (take (length search) (drop n text)) (drop (length search) (drop n text))

module _ (lower : Text → Text) where
  unfoldable pub highlighted : Text → Text → Marked
  unfolding index_of mark_at
  highlighted search text =
      if is_empty search
      then plain text
      else mark_at search text (index_of (lower search) (lower text))

  -- A row: what it shows, and what its buttons and its double click do with the entry's properties.
  pub record Row : Type 0 where
    pub searched : Bool
    pub title : Text
    pub folder : Bool
    pub name : Marked
    pub path : Option Marked
    pub icon : Icon
    pub size : Size
    pub updated_at : Value
    pub edits : Bool
    pub opens_pdf : Bool
    pub revision : Value
    pub sha256 : Value

  unfoldable pub row_of : Text → Value → Row
  unfolding path_of is_folder basename highlighted kind_icon size_of editable is_pdf
  row_of search v = record {
    searched = if is_empty search then false else true;
    title = path_of v;
    folder = is_folder v;
    name = highlighted search (basename (path_of v));
    path = if is_empty search then none else some (highlighted search (path_of v));
    icon = kind_icon v;
    size = size_of (optional "size" v);
    updated_at = optional "updated_at" v;
    edits = editable v;
    opens_pdf = is_text (optional "kind" v) (codes "file") && is_pdf v;
    revision = optional "revision" v;
    sha256 = optional "sha256" v;
  }

  -- The rows of a listing that is shown: those that are there are kept if it is the same.
  unfoldable pub draw_rows : View → List Value → Shown → List Row → List Row
  unfolding row_of
  draw_rows view entries sh rows =
      if same_query (query_of view) sh.displayed_query && same_entries entries sh.displayed_entries
      then rows
      else map (row_of view.search) entries
