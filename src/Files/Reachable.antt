-- ===== src/Files/Reachable.antt =====
-- The files page as its handlers interleave: what it shows, what it asks for, and what it changes.
use mysyncfiles.Prelude.{
  ℕ, ◌≡◌, refl, subst, Bool, true, false, Option, none, some, List, [], Text, codes, Memᴰ, All-Memᴰ,
  arith,
}
use mysyncfiles.Value.{Value, truthy}
use mysyncfiles.Prog.{modify}
use mysyncfiles.Prog.Threads.{System, Reach}
use mysyncfiles.Prog.Relied.{IsRelied, Reach-IsRelied}
use mysyncfiles.Files.State.{Query, Page, blank, lock}
use mysyncfiles.Files.Calls.{Call, Reply, get_entries, change, M}
use mysyncfiles.Files.Listing.{query_of}
use mysyncfiles.Files.Selection.{close_menu, close_details}
use mysyncfiles.Files.Browse.{
  open_pdf, on_shown, set_toast, navigate, home, refresh, next_page, previous_page, search_changed,
  search_fired, select_entry, details_fired, open_editor, refresh_info,
}
use mysyncfiles.Files.Access.{restore, verify, cancel_verify, logout, became_visible}
use mysyncfiles.Files.Download.{download, cancel_download}
use mysyncfiles.Files.Upload.{LocalFile, cancel_upload}
use mysyncfiles.Files.Folder.{close_folder, submit}
use mysyncfiles.Files.Menu.{file_of, Action, open_menu, menu_clicked}
use mysyncfiles.Files.Drop.{drag_escape, pick, picked, drag_enter, drag_leave, drag_end, drop_files}
use mysyncfiles.Files.Fits.{
  Server, AsksFor, IsBlank, IsLive, Apart, IsNamed, Rel, Rel_refl, Rel_trans, Sends, Serves,
  AreServed, Answers, Inv, Safe, lock-After, same-After,
}
use mysyncfiles.Files.Moves.{
  shows-IsLive, navigate-Safe, home-Safe, refresh-Safe, next_page-Safe, previous_page-Safe,
  search_changed-After, search_fired-Safe,
}
use mysyncfiles.Files.Picks.{
  open_pdf-After, clear_toast-After, close_menu-After, close_details-After, select_entry-After,
  open_menu-After, details_fired-After, open_editor-After,
}
use mysyncfiles.Files.Selects.{refresh_info-Safe}
use mysyncfiles.Files.Foldings.{close_folder-After, submit-Safe}
use mysyncfiles.Files.Restores.{restore-Safe}
use mysyncfiles.Files.Entrances.{verify-Safe, logout-Safe, became_visible-After}
use mysyncfiles.Files.Transfers.{download-Safe}
use mysyncfiles.Files.Drops.{
  drag_escape-After, pick-After, picked-Safe, drag_enter-After, drag_leave-After, drag_end-After,
  drop_files-Safe, menu_clicked-Safe,
}

-- The variables as they are declared, on a page that has been written out.
abbrev pub initial : Page
initial = record {
  shown = blank (codes "initial") [];
  epoch = 0;
  listing = none;
  verification = none;
  transfer = none;
  upload = none;
  folder_request = none;
  aborted = [];
  fresh = 0;
  offered = [];
  active_id = none;
  at_server = false;
  cancelled = [];
  visits = [];
}

-- The handlers, and the states in which the page may start them. A row is there for the entries that
-- are listed, the details for the selected one, and the listing for a page with a session.
pub data Handler : M (Unit {0}) → Page → Type 0 where
  restored : (now : ℕ) (directory : Text) (s : Page) → Handler (restore now directory) s
  verified : (known : Bool) (now : ℕ) (s : Page) → Handler (verify known now) s
  cancelled : (s : Page) → Handler (modify cancel_verify) s
  logged_out : (s : Page) → Handler logout s
  locked : (state message : Text) (s : Page) → Handler (modify (lock state message)) s
  seen : (now : ℕ) (s : Page) → Handler (modify (became_visible now)) s
  navigated : (path : Text) (s : Page) → Handler (navigate path) s
  went_home : (s : Page) → Handler home s
  refreshed : (s : Page) → Handler refresh s
  went_on : (s : Page) → Handler next_page s
  went_back : (s : Page) → Handler previous_page s
  searched : (t : Text) (s : Page) → Handler (modify (search_changed t)) s
  search_timed : (s : Page) → Handler search_fired s
  selected :
      (slow : Bool) (v : Value) (s : Page)
      → Memᴰ v s.shown.displayed_entries
      → Handler (modify (on_shown (select_entry slow v))) s
  details_timed :
      (connected : Bool) (s : Page) → Handler (modify (on_shown (details_fired connected))) s
  details_closed : (s : Page) → Handler (modify (on_shown close_details)) s
  details_wanted :
      (connected : Bool) (v : Value) (s : Page)
      → s.shown.selected ≡ some v
      → Handler (refresh_info connected v) s
  menu_opened :
      (again : Bool) (v : Value) (s : Page)
      → Memᴰ v s.shown.displayed_entries
      → Handler (modify (on_shown (open_menu again v))) s
  menu_closed : (s : Page) → Handler (modify (on_shown close_menu)) s
  menu_used :
      (connected : Bool) (action : Action) (s : Page) → Handler (menu_clicked connected action) s
  opened : (v : Value) (s : Page) → Handler (modify (open_editor v)) s
  pdf_opened :
      (v : Value) (s : Page) → Memᴰ v s.shown.displayed_entries → Handler (modify (open_pdf v)) s
  details_downloaded :
      (v : Value) (s : Page) → s.shown.selected ≡ some v → Handler (download (file_of v)) s
  drag_escaped : (s : Page) → Handler (modify (on_shown drag_escape)) s
  toast_closed : (s : Page) → Handler (modify (on_shown (set_toast []))) s
  download_cancelled : (s : Page) → Handler (modify cancel_download) s
  upload_cancelled : (s : Page) → Handler (modify cancel_upload) s
  folder_closed : (s : Page) → Handler (modify close_folder) s
  folder_submitted : (name : Text) (s : Page) → Handler (submit name) s
  pick_wanted : (inert : Bool) (s : Page) → Handler (modify (pick false inert)) s
  chosen : (inert : Bool) (files : List LocalFile) (s : Page) → Handler (picked false inert files) s
  drag_entered : (inert : Bool) (s : Page) → Handler (modify (drag_enter false inert)) s
  drag_left : (s : Page) → IsLive s → Handler (modify (on_shown drag_leave)) s
  drag_ended : (s : Page) → Handler (modify (on_shown drag_end)) s
  dropped :
      (inert folders : Bool) (files : List LocalFile) (s : Page)
      → Handler (drop_files false inert folders files) s

module _ (Served : Server) where
  selected-IsLive : (v : Value) (s : Page) → s.shown.selected ≡ some v → Inv Served s → IsLive s
  unfolding blank
  selected-IsLive v s same i = shows-IsLive Served (λ sh. sh.selected) s v (λ _ _. refl) same i

  pub Handler-Safe :
      (m : M (Unit {0})) (s : Page) → Handler m s → Inv Served s → Safe Served s (m s)
  unfolding cancel_verify cancel_download cancel_upload
  Handler-Safe m s (restored now directory _) i = restore-Safe Served now directory s i
  Handler-Safe m s (verified known now _) i = verify-Safe Served known now s i
  Handler-Safe m s (cancelled _) i = same-After Served s i
  Handler-Safe m s (logged_out _) i = logout-Safe Served s i
  Handler-Safe m s (locked state message _) i = lock-After Served state message s i
  Handler-Safe m s (seen now _) i = became_visible-After Served now s i
  Handler-Safe m s (navigated path _) i = navigate-Safe Served path s i
  Handler-Safe m s (went_home _) i = home-Safe Served s i
  Handler-Safe m s (refreshed _) i = refresh-Safe Served s i
  Handler-Safe m s (went_on _) i = next_page-Safe Served s i
  Handler-Safe m s (went_back _) i = previous_page-Safe Served s i
  Handler-Safe m s (searched t _) i = search_changed-After Served t s i
  Handler-Safe m s (search_timed _) i = search_fired-Safe Served s i
  Handler-Safe m s (selected slow v _ listed) i = select_entry-After Served slow v s listed i
  Handler-Safe m s (details_timed connected _) i = details_fired-After Served connected s i
  Handler-Safe m s (details_closed _) i = close_details-After Served s i
  Handler-Safe m s (details_wanted connected v _ same) i =
      refresh_info-Safe Served connected v s (selected-IsLive v s same i) i
  Handler-Safe m s (menu_opened again v _ listed) i = open_menu-After Served again v s listed i
  Handler-Safe m s (menu_closed _) i = close_menu-After Served s i
  Handler-Safe m s (menu_used connected action _) i = menu_clicked-Safe Served connected action s i
  Handler-Safe m s (opened v _) i = open_editor-After Served v s i
  Handler-Safe m s (pdf_opened v _ listed) i = open_pdf-After Served v s i
  Handler-Safe m s (details_downloaded v _ same) i = download-Safe Served (file_of v) s i
  Handler-Safe m s (drag_escaped _) i = drag_escape-After Served s i
  Handler-Safe m s (toast_closed _) i = clear_toast-After Served s i
  Handler-Safe m s (download_cancelled _) i = same-After Served s i
  Handler-Safe m s (upload_cancelled _) i = same-After Served s i
  Handler-Safe m s (folder_closed _) i = close_folder-After Served s i
  Handler-Safe m s (folder_submitted name _) i = submit-Safe Served name s i
  Handler-Safe m s (pick_wanted inert _) i = pick-After Served false inert s i
  Handler-Safe m s (chosen inert files _) i = picked-Safe Served false inert files s i
  Handler-Safe m s (drag_entered inert _) i = drag_enter-After Served false inert s i
  Handler-Safe m s (drag_left _ live) i = drag_leave-After Served s live i
  Handler-Safe m s (drag_ended _) i = drag_end-After Served s i
  Handler-Safe m s (dropped inert folders files _) i =
      drop_files-Safe Served false inert folders files s i

  -- A state of the page that its handlers reach, with a server that serves listings as `Served` says.
  abbrev pub Reaches : System Call Reply Page → Type 0
  Reaches = Reach (Serves Served) Handler (record { state = initial; pool = []; made = [] })

  initial-Inv : Inv Served initial
  unfolding blank
  initial-Inv = (
    record {
      bare = λ _. (codes "initial", [], refl);
      paged = omega arith;
      retried = tt;
      searched = tt;
      answered = tt;
      snapped = tt;
    },
    tt,
  )

  pub reached :
      (y : System Call Reply Page)
      → Reaches y
      → IsRelied (Serves Served) (Inv Served) Rel (Sends Served) Rel_trans y
  reached y r =
      Reach-IsRelied (Serves Served) (Inv Served) Rel (Sends Served) Rel_trans Rel_refl Handler
        Handler-Safe (record { holds = initial-Inv; ready = tt; sent = tt }) r

  -- Whenever the page has no session, nothing of the account is shown, and the variables hold nothing to
  -- be shown again: no listing, selection, menu, folder operation, search, chosen folder or name in the
  -- toast, but what the access screen tells.
  pub reached-IsBlank :
      (y : System Call Reply Page)
      → Reaches y
      → y.state.shown.session ≡ none
      → IsBlank y.state.shown
  reached-IsBlank y r h = (reached y r).holds.0.bare h

  -- The entries that are shown are those that the server has served for the query of the view that is
  -- shown, or the same as them in every property that the page reads, however answers interleave with
  -- navigation, searches and locks.
  pub reached-AreServed :
      (y : System Call Reply Page) (q : Query)
      → Reaches y
      → y.state.shown.displayed_query ≡ some q
      → (q ≡ query_of y.state.shown.view)
        × AreServed Served.listing q y.state.shown.displayed_entries
  reached-AreServed y q r h =
      subst (λ o. Answers Served o y.state.shown.view y.state.shown.displayed_entries) h
        (reached y r).holds.0.answered

  -- Files are never sent and downloaded at once.
  pub reached-Apart :
      (y : System Call Reply Page) → Reaches y → Apart y.state.upload y.state.transfer
  reached-Apart y r = (reached y r).holds.1

  -- A listing is only asked for by a page that has a session, and for a view that the page keeps to load
  -- again: with the cursor that the view has for its page, with its search, and with its folder unless
  -- it is of a search.
  pub reached-entries_asked :
      (y : System Call Reply Page) (q : Query) (s : Page)
      → Reaches y
      → Memᴰ (get_entries q, s) y.made
      → IsLive s × AsksFor q s.shown.retry_view
  reached-entries_asked y q s r m = All-Memᴰ (λ x. Sends Served x.0 x.1) m (reached y r).sent

  -- A folder is only renamed or deleted by a page that has a session, with a snapshot that
  -- the server has given as that of this folder, and only renamed to a valid name that is not its own.
  pub reached-change_sent :
      (y : System Call Reply Page) (path : Text) (snapshot : Value) (name : Option Text) (s : Page)
      → Reaches y
      → Memᴰ (change path snapshot name, s) y.made
      → IsLive s × (truthy snapshot ≡ true) × Served.snapshot path snapshot × IsNamed path name
  reached-change_sent y path snapshot name s r m =
      All-Memᴰ (λ x. Sends Served x.0 x.1) m (reached y r).sent
