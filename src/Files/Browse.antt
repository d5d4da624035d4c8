-- ===== src/Files/Browse.antt =====
-- Moving through the listing (web/atlas.js): `navigate`, the buttons of the pages, the search, the
-- selection and its details, `directoryInfo`, `openEditor` and the opening of a PDF.
use mysyncfiles.Prelude.{
  ends_with, ℕ, Bool, false, not, ◌&&◌, ◌||◌, Option, none, some, [], ◌∷◌, Text, codes, has_unit,
  text_eq, length, ltb, ◌==◌, if◌then◌else◌,
}
use mysyncfiles.Indent.{is_white, is_empty}
use mysyncfiles.Value.{
  Value, Props, end, prop, obj, as_text, is_text, is_null, safe_nat, digest_text,
}
use mysyncfiles.Exit
use mysyncfiles.Exit.{Error, Exit, ok, check, code_is}
use mysyncfiles.Prog.{◌>>=◌, ◌>>◌, pure, modify, request, of_exit, try_catch}
use mysyncfiles.Http.{failure, field, optional}
use mysyncfiles.Files.State.{
  Session, Visit, editor_of, pdf_of, View, Shown, Page, abort, is_some, lock,
}
use mysyncfiles.Files.Calls.{M, get_directory, value_of}
use mysyncfiles.Files.Listing.{at_most, at_least, max_time, next_view, previous_view}
use mysyncfiles.Files.Selection.{is_folder, close_menu, show_details, select_folder, same_key}
use mysyncfiles.Files.Load.{load}

-- A change of what is shown, and of nothing else.
unfoldable pub on_shown : (Shown → Shown) → Page → Page
on_shown f s = record s { shown = f s.shown }

-- `toast`, of which the names are kept.
unfoldable pub set_toast : Text → Shown → Shown
set_toast t sh = record sh { toast = t }

-- `basename`
unfoldable pub basename : Text → Text
basename [] = []
basename (c ∷ t) = let rest = basename t in if has_unit 47 (c ∷ t) then rest else c ∷ t

unfoldable pub top_view : Text → Text → View
top_view directory search = record {
  directory = directory;
  search = search;
  page_index = 0;
  cursors = [] ∷ [];
}

-- `String.prototype.trim`
unfoldable pub trim_start : Text → Text
trim_start [] = []
trim_start (c ∷ t) = let rest = trim_start t in if is_white c then rest else c ∷ t

unfoldable pub trim_end : Text → Text
trim_end [] = []
trim_end (c ∷ t) = let rest = trim_end t in if is_white c && is_empty rest then [] else c ∷ rest

unfoldable pub stop_search : Shown → Shown
stop_search sh = record sh { search_timer = none }

unfoldable pub clear_search : Shown → Shown
clear_search sh = record sh { search_text = [] }

-- Whether the folder is shown already, and is not to be loaded again.
unfoldable pub is_there : Text → Page → Bool
is_there path s =
    is_some s.shown.displayed_query
    && text_eq path s.shown.view.directory
    && is_empty s.shown.view.search
    && not (is_some s.listing)
    && not (is_some s.shown.retry_view)

-- `navigate`
unfoldable pub navigate : Text → M (Unit {0})
unfolding on_shown stop_search clear_search is_there top_view
navigate path s =
    if is_there path s
    then pure tt (on_shown stop_search s)
    else load (top_view path []) (on_shown clear_search (on_shown stop_search s))

-- The links to the files, and the buttons of the listing.
unfoldable pub home : M (Unit {0})
unfolding navigate
home s = if is_some s.shown.session then navigate [] s else pure tt s

unfoldable pub retry_of : Option View → View → View
retry_of none view = view
retry_of (some retry) view = retry

unfoldable pub refresh : M (Unit {0})
unfolding on_shown stop_search retry_of
refresh s =
    if is_some s.listing
    then pure tt s
    else load (retry_of s.shown.retry_view s.shown.view) (on_shown stop_search s)

unfoldable pub to_next : Option Text → M (Unit {0})
to_next none s = pure tt s
to_next (some next) s =
    if ltb 0 (length next) && not (is_some s.listing)
    then load (next_view next s.shown.view) s
    else pure tt s

unfoldable pub next_page : M (Unit {0})
unfolding to_next
next_page s = to_next s.shown.next s

unfoldable pub previous_page : M (Unit {0})
previous_page s =
    if ltb 0 s.shown.view.page_index && not (is_some s.listing)
    then load (previous_view s.shown.view) s
    else pure tt s

-- `searchChanged`, with what the input holds.
unfoldable pub start_search : Text → Shown → Shown
unfolding close_menu top_view trim_start trim_end
start_search t sh =
    let view = top_view sh.view.directory (trim_end (trim_start t)) in
    record (close_menu sh) {
      details_timer = none;
      search_text = t;
      retry_view = some view;
      search_timer = some view;
      drag_depth = 0;
    }

unfoldable pub search_changed : Text → Page → Page
unfolding on_shown start_search abort
search_changed t s =
    if is_some s.shown.session
    then record (on_shown (start_search t) s) { aborted = abort s.listing s.aborted }
    else s

-- The timer of `searchChanged`, when it fires.
unfoldable pub search_fired : M (Unit {0})
unfolding on_shown stop_search
search_fired s = elim s.shown.search_timer [
  | none ↦ pure tt s
  | some view ↦ load view (on_shown stop_search s)
]

-- `path` of an entry that was validated.
unfoldable pub path_of : Value → Text
path_of v = elim (as_text (optional "path" v)) [ none ↦ [] | some t ↦ t ]

-- `editable`
unfoldable pub editable : Value → Bool
unfolding path_of
editable v =
    is_text (optional "kind" v) (codes "file")
    && (ends_with (path_of v) ".py" || ends_with (path_of v) ".c")

unfoldable pub is_pdf : Value → Bool
unfolding path_of
is_pdf v = ends_with (path_of v) ".pdf"

unfoldable pub stop_details : Shown → Shown
stop_details sh = record sh { details_timer = none }

unfoldable pub wait_details : Value → Shown → Shown
wait_details v sh = record sh { details_timer = some v }

-- `selectEntry`; `slow` tells a click of the pointer on a narrow screen.
unfoldable pub select_entry : Bool → Value → Shown → Shown
unfolding stop_details wait_details select_folder show_details is_folder is_pdf editable
select_entry slow v sh =
    if is_folder v
    then select_folder v (stop_details sh)
    else if (is_pdf v || ends_with (path_of v) ".py" || ends_with (path_of v) ".c") && slow
    then wait_details v (stop_details sh)
    else show_details v (stop_details sh)

-- The timer of `selectEntry`, when it fires; `connected` tells that the row is still there.
unfoldable pub details_fired : Bool → Shown → Shown
unfolding stop_details show_details
details_fired connected sh = elim sh.details_timer [
  | none ↦ sh
  | some v ↦
      if is_some sh.session && connected then show_details v (stop_details sh) else stop_details sh
]

unfoldable pub visit : Visit → Page → Page
visit v s = record s { visits = v ∷ s.visits }

unfoldable pub over : ℕ → Value → Bool
over bound v = elim (safe_nat (optional "size" v)) [ none ↦ false | some n ↦ ltb bound n ]

-- `openEditor`
unfoldable pub open_editor : Value → Page → Page
unfolding on_shown stop_details set_toast visit editable over path_of
open_editor v s0 =
    let s = on_shown stop_details s0 in
    if not (is_some s.shown.session) || not (editable v)
    then s
    else if is_some s.upload || is_some s.transfer || over 262144 v
    then on_shown (set_toast []) s
    else visit (editor_of (path_of v) s.shown.view.directory) s

-- The double click on the row of a PDF, which is opened within the limit of the session.
unfoldable pub pdf_in : Option Session → Value → Page → Page
unfolding on_shown set_toast visit over path_of
pdf_in none v s = s
pdf_in (some session) v s =
    if over session.download_limit v
    then on_shown (set_toast []) s
    else visit (pdf_of (path_of v) (revision_of (safe_nat (optional "revision" v)))) s
  where
    revision_of : Option ℕ → ℕ
    revision_of none = 0
    revision_of (some n) = n

unfoldable pub open_pdf : Value → Page → Page
unfolding on_shown stop_details pdf_in
open_pdf v s0 = let s = on_shown stop_details s0 in pdf_in s.shown.session v s

-- The test of `directoryInfo`.
unfoldable pub info_check : Text → Value → Exit (Unit {0})
unfolding at_most at_least
info_check path v = Exit.◌>>=◌ (field "path" v) λ p.
    check
      (is_text p path
        && is_some (safe_nat (optional "size" v))
        && at_least 1 (safe_nat (optional "file_count" v))
        && at_most max_time (safe_nat (optional "updated_at" v))
        && (is_null (optional "snapshot" v) || is_some (digest_text (optional "snapshot" v))))
      (failure "invalid_response")

-- `directoryInfo`
unfoldable pub directory_info : Text → M Value
unfolding info_check value_of
directory_info path = do
  v ← of_exit (value_of (← request (get_directory path)))
  of_exit (info_check path v)
  pure v

-- `{...v, ...info}`
unfoldable pub merge_props : Props → Props → Props
merge_props ps end = ps
merge_props ps (prop key v qs) = prop key v (merge_props ps qs)

unfoldable pub merge : Value → Value → Value
unfolding merge_props
merge (obj ps) (obj qs) = obj (merge_props ps qs)
merge v w = v

unfoldable pub is_selected : Value → Shown → Bool
unfolding same_key
is_selected v sh = elim sh.selected [ none ↦ false | some w ↦ same_key "path" w v ]

-- The properties of a selected folder, asked for again by a listing that has changed.
unfoldable pub show_again : ℕ → Bool → Value → Value → Page → Page
unfolding is_selected show_details on_shown merge
show_again current connected v info s =
    if current == s.epoch && is_selected v s.shown && connected && s.shown.details_open
    then on_shown (show_details (merge v info)) s
    else s

unfoldable pub expire : ℕ → Error → Page → Page
unfolding lock
expire current e s =
    if current == s.epoch && code_is e "session_expired" then lock (codes "expired") [] s else s

unfoldable pub ask_again : ℕ → Bool → Value → M (Unit {0})
unfolding directory_info show_again path_of
ask_again current connected v = do
  info ← directory_info (path_of v)
  modify (show_again current connected v info)

unfoldable pub refresh_info : Bool → Value → M (Unit {0})
unfolding ask_again expire
refresh_info connected v s =
    try_catch (ask_again s.epoch connected v) (λ e. modify (expire s.epoch e)) s
