-- ===== src/Files/Selection.antt =====
-- What an accepted listing changes of what is shown, and the selection: `closeMenu`, `closeDetails`,
-- `details`, `selectDirectory` and the part of `load` that shows a listing (web/atlas.js).
use mysyncfiles.Prelude.{
  Bool, true, false, not, ◌&&◌, Option, none, some, List, [], ◌∷◌, Text, codes, text_eq, ◌==◌,
  String, if◌then◌else◌,
}
use mysyncfiles.Value.{
  Value, Number, pos, negsuc, fraction, undefined, null, bool, num, str, is_text,
}
use mysyncfiles.Http.{optional}
use mysyncfiles.Files.State.{View, Query, Shown, Page}
use mysyncfiles.Files.Listing.{query_of}

unfoldable pub is_folder : Value → Bool
is_folder v = is_text (optional "kind" v) (codes "directory")

unfoldable pub close_menu : Shown → Shown
close_menu sh = record sh { menu_entry = none }

unfoldable pub close_details : Shown → Shown
close_details sh = record sh { selected = none; details_open = false; details_timer = none }

-- `details`
unfoldable pub show_details : Value → Shown → Shown
unfolding close_menu close_details
show_details v sh = record (close_details (close_menu sh)) {
  selected = some v;
  details_open = true;
  drag_depth = 0;
}

-- `selectDirectory`
unfoldable pub select_folder : Value → Shown → Shown
unfolding close_details
select_folder v sh = record (close_details sh) { selected = some v }

unfoldable pub same_text : Option Text → Option Text → Bool
same_text none none = true
same_text (some t) (some u) = text_eq t u
same_text _ _ = false

unfoldable pub same_query : Query → Option Query → Bool
unfolding same_text
same_query q none = false
same_query q (some p) =
    text_eq q.directory p.directory && text_eq q.search p.search && same_text q.after p.after

-- `===` on the values of two parsed answers: arrays and objects of the one are not those of the other.
unfoldable pub same_number : Number → Number → Bool
same_number (pos m) (pos n) = m == n
same_number (negsuc m) (negsuc n) = m == n
same_number (fraction t) (fraction u) = text_eq t u
same_number _ _ = false

unfoldable pub same_value : Value → Value → Bool
unfolding same_number
same_value undefined undefined = true
same_value null null = true
same_value (bool true) (bool true) = true
same_value (bool false) (bool false) = true
same_value (num m) (num n) = same_number m n
same_value (str t) (str u) = text_eq t u
same_value _ _ = false

unfoldable pub same_key : String → Value → Value → Bool
unfolding same_value
same_key key v w = same_value (optional key v) (optional key w)

-- `sameEntries`, of two listings.
unfoldable pub same_entries : List Value → List Value → Bool
unfolding same_key
same_entries [] [] = true
same_entries (v ∷ vs) (w ∷ ws) =
    same_key "kind" v w
    && same_key "path" v w
    && same_key "size" v w
    && same_key "revision" v w
    && same_key "sha256" v w
    && same_key "updated_at" v w
    && same_entries vs ws
same_entries _ _ = false

unfoldable pub find_entry : Value → List Value → Option Value
unfolding same_key
find_entry v [] = none
find_entry v (w ∷ ws) =
    let rest = find_entry v ws in
    if same_key "kind" w v && same_key "path" w v then some w else rest

-- The entry that was selected is shown as it now is, or its details are closed.
unfoldable pub reselect : Value → Option Value → Shown → Shown
unfolding close_details select_folder show_details is_folder
reselect v none sh = close_details sh
reselect v (some w) sh =
    if is_folder v && not sh.details_open then select_folder w sh else show_details w sh

-- The selection after a listing: it is closed with another view, kept with the same entries, and
-- otherwise sought among the new ones.
unfoldable pub keep_selection : Bool → Bool → List Value → Shown → Shown
unfolding close_details find_entry reselect
keep_selection same_view same entries sh =
    if not same_view
    then close_details sh
    else if same
    then sh
    else elim sh.selected [ none ↦ sh | some v ↦ reselect v (find_entry v entries) sh ]

-- What `load` makes of what is shown once an answer is accepted.
unfoldable pub show_entries : View → List Value × Option Text → Shown → Shown
unfolding query_of same_query same_entries keep_selection
show_entries view listing sh =
    let same_view = same_query (query_of view) sh.displayed_query in
    let same = same_view && same_entries listing.0 sh.displayed_entries in
    record (keep_selection same_view same listing.0 sh) {
      view = view;
      search_text = view.search;
      next = listing.1;
      retry_view = none;
      displayed_query = some (query_of view);
      displayed_entries = if same then sh.displayed_entries else listing.0;
    }

unfoldable pub show_listing : View → List Value × Option Text → Page → Page
unfolding show_entries
show_listing view listing s = record s { shown = show_entries view listing s.shown }
