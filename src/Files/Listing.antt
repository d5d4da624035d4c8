-- ===== src/Files/Listing.antt =====
-- The listing of the files page (web/atlas.js): `validateEntry`, the test that `load` makes of an
-- answer, the pages of a listing, and the test of a folder's new name.
use mysyncfiles.Prelude.{
  ℕ, ◌+◌, ◌-◌, Bool, false, not, ◌&&◌, ◌||◌, Option, none, some, List, [], ◌∷◌, ◌++◌, Text, codes,
  is_any, has_unit, utf8_length, text_eq, length, take, all, ltb, leb, if◌then◌else◌, get_elem?,
}
use mysyncfiles.Value.{
  Value, arr, items, safe_nat, is_null, is_nullish, as_text, is_text, digest_text,
}
use mysyncfiles.Exit.{Exit, ok, err, ◌>>=◌}
use mysyncfiles.Http.{failure, field, optional}
use mysyncfiles.Indent.{is_empty}
use mysyncfiles.Files.State.{View, Query, is_some}

unfoldable pub at_most : ℕ → Option ℕ → Bool
at_most bound none = false
at_most bound (some n) = leb n bound

unfoldable pub at_least : ℕ → Option ℕ → Bool
at_least bound none = false
at_least bound (some n) = leb bound n

abbrev pub max_time : ℕ
max_time = 8640000000000

unfoldable pub short_text : ℕ → Option Text → Bool
short_text bound none = false
short_text bound (some t) = ltb 0 (length t) && leb (length t) bound

-- `validateEntry`
unfoldable pub validate_entry : Value → Bool
unfolding at_most at_least short_text
validate_entry v =
    let folder = is_text (optional "kind" v) (codes "directory") in
    (folder || is_text (optional "kind" v) (codes "file"))
    && short_text 8192 (as_text (optional "path" v))
    && (is_some (safe_nat (optional "size" v)) || folder && is_null (optional "size" v))
    && (is_nullish (optional "updated_at" v)
        || at_most max_time (safe_nat (optional "updated_at" v)))
    && (folder
        || at_least 1 (safe_nat (optional "revision" v))
          && is_some (digest_text (optional "sha256" v)))

-- `value.next`: `null`, or a text that is not too long.
unfoldable pub next_of : Value → Exit (Option Text)
next_of v = if is_null v then ok none else known (as_text v)
  where
    known : Option Text → Exit (Option Text)
    known none = err (failure "invalid_response")
    known (some t) = if leb (length t) 8194 then ok (some t) else err (failure "invalid_response")

unfoldable pub entries_of : Value → Exit (List Value)
unfolding validate_entry
entries_of (arr vs) =
    if leb (length (items vs)) 200 && all validate_entry (items vs)
    then ok (items vs)
    else err (failure "invalid_response")
entries_of _ = err (failure "invalid_response")

-- The test that `load` makes of an answer, with the entries and the next cursor.
unfoldable pub listing_of : Value → Exit (List Value × Option Text)
unfolding entries_of next_of
listing_of v = do
  e ← field "entries" v
  entries ← entries_of e
  next ← next_of (optional "next" v)
  ok (entries, next)

-- `view.cursors[view.pageIndex]`
unfoldable pub cursor_of : View → Option Text
cursor_of view = get_elem? view.cursors view.page_index

-- What `load` asks for.
unfoldable pub query_of : View → Query
unfolding cursor_of is_empty
query_of view = record {
  directory = if is_empty view.search then view.directory else [];
  search = view.search;
  after = cursor_of view;
}

-- What the buttons of the pages load.
unfoldable pub next_view : Text → View → View
next_view next view = record view {
  page_index = view.page_index + 1;
  cursors = take (view.page_index + 1) view.cursors ++ next ∷ [];
}

unfoldable pub previous_view : View → View
previous_view view = record view { page_index = view.page_index - 1 }

-- Whether a folder may be given this name in place of another.
unfoldable pub may_rename : Text → Text → Bool
may_rename old name =
    ltb 0 (length name)
    && not (text_eq name old)
    && not (has_unit 47 name || has_unit 92 name)
    && leb (utf8_length name) 255
    && not (is_any name ("." ∷ ".." ∷ ".mysync-conflicts" ∷ ".mysync-staging" ∷ []))
