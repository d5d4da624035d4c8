-- ===== src/Files/Load.antt =====
-- Loading a listing (`load`, web/atlas.js). What is written beside the list, the focus and the spinner
-- are not modelled; that the properties of a selected folder come again is `refresh_info`
-- (Files.Browse).
use mysyncfiles.Prelude.{
  ℕ, ◌+◌, Bool, not, ◌&&◌, none, some, [], codes, ◌==◌, if◌then◌else◌, true, false,
}
use mysyncfiles.Value.{Value}
use mysyncfiles.Exit.{Error}
use mysyncfiles.Prog.{
  ◌>>=◌, ◌>>◌, pure, get_state, modify, request, of_exit, when, try_catch, try_finally,
}
use mysyncfiles.Files.State.{View, Shown, Page, abort, is_aborted, is_some, lock}
use mysyncfiles.Files.Calls.{M, get_entries, value_of, is_refused}
use mysyncfiles.Files.Listing.{query_of, listing_of}
use mysyncfiles.Files.Selection.{close_menu, show_listing}

unfoldable pub begin_load : View → Page → Page
unfolding abort close_menu
begin_load view s = record s {
  shown = record (close_menu s.shown) {
    details_timer = none;
    retry_view = some view;
    busy = true;
    drag_depth = 0;
  };
  aborted = abort s.listing s.aborted;
  listing = some s.fresh;
  fresh = s.fresh + 1;
}

-- Whether an answer is for a page that has not been locked since, by a request not aborted since.
unfoldable pub is_current : ℕ → ℕ → Page → Bool
is_current id current s = current == s.epoch && not (is_aborted id s)

-- An answer that is not refused is shown.
unfoldable pub accept_listing : View → Value → M (Unit {0})
unfolding listing_of show_listing
accept_listing view v = do listing ← of_exit (listing_of v); modify (show_listing view listing)

unfoldable pub ask_listing : ℕ → ℕ → View → M (Unit {0})
unfolding is_current accept_listing value_of
ask_listing id current view = do
  v ← of_exit (value_of (← request (get_entries (query_of view))))
  s ← get_state
  when (is_current id current s) (accept_listing view v)

-- The `catch` block: the listing before stays, unless the session has ended.
unfoldable pub fail_load : ℕ → ℕ → Error → Page → Page
unfolding is_current is_refused lock
fail_load id current e s =
    if is_current id current s && is_refused e then lock (codes "expired") [] s else s

unfoldable pub idle : Shown → Shown
idle sh = record sh { busy = false; drag_depth = 0 }

-- `if (listingRequest === controller) { listingRequest = undefined; listingBusy(false); }`
unfoldable pub end_load : ℕ → Page → Page
unfolding idle
end_load id s = elim s.listing [
  | none ↦ s
  | some i ↦ if i == id then record s { listing = none; shown = idle s.shown } else s
]

unfoldable pub load_with : View → M (Unit {0})
unfolding begin_load ask_listing fail_load end_load
load_with view s =
    (do
      modify (begin_load view)
      try_finally
          (try_catch (ask_listing s.fresh s.epoch view) (λ e. modify (fail_load s.fresh s.epoch e)))
          (modify (end_load s.fresh)))
      s

-- `load`
unfoldable pub load : View → M (Unit {0})
unfolding load_with
load view s = if is_some s.shown.session then load_with view s else pure tt s

-- `load()`, of the current view.
unfoldable pub load_current : M (Unit {0})
unfolding load
load_current s = load s.shown.view s
