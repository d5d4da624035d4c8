-- ===== src/Files/Picks.antt =====
-- The selection, the menu, the timer of the details and the editor of a file, and the invariant of the files page.
use mysyncfiles.Prelude.{
  ends_with, if-either, refl, Bool, not, ◌&&◌, ◌||◌, Option, none, some, [], Text, Memᴰ,
  if◌then◌else◌,
}
use mysyncfiles.Value.{Value}
use mysyncfiles.Files.State.{Session, Shown, Page, is_some, blank, editor_of}
use mysyncfiles.Files.Selection.{is_folder, close_menu, close_details, show_details, select_folder}
use mysyncfiles.Files.Browse.{
  pdf_in, open_pdf, on_shown, set_toast, stop_details, wait_details, select_entry, details_fired,
  visit, over, editable, open_editor, is_pdf, path_of,
}
use mysyncfiles.Files.Menu.{set_menu, open_menu}
use mysyncfiles.Files.Fits.{Server, Inv, IsLive, Alike, After, same-After, live-After, blank-After}
use mysyncfiles.Files.Moves.{unchanged, listed-IsLive}
use mysyncfiles.Files.Loads.{and_left}

module _ (Served : Server) where
  pub set_toast-After :
      (t : Text) (s : Page) → IsLive s → Inv Served s → After Served s (on_shown (set_toast t) s)
  unfolding on_shown set_toast
  set_toast-After t s live i = live-After Served (set_toast t s.shown) s live (unchanged s.shown) i

  -- A message without a name leaves a blank page blank.
  pub clear_toast-After : (s : Page) → Inv Served s → After Served s (on_shown (set_toast []) s)
  unfolding on_shown set_toast blank
  clear_toast-After s i =
      blank-After Served (set_toast []) s (λ state message. (state, message, refl))
        (unchanged s.shown) i

  pub stop_details-After : (s : Page) → Inv Served s → After Served s (on_shown stop_details s)
  unfolding on_shown stop_details blank
  stop_details-After s i =
      blank-After Served stop_details s (λ state message. (state, message, refl))
        (unchanged s.shown) i

  pub close_menu-After : (s : Page) → Inv Served s → After Served s (on_shown close_menu s)
  unfolding on_shown close_menu blank
  close_menu-After s i =
      blank-After Served close_menu s (λ state message. (state, message, refl)) (unchanged s.shown)
        i

  pub close_details-After : (s : Page) → Inv Served s → After Served s (on_shown close_details s)
  unfolding on_shown close_details blank
  close_details-After s i =
      blank-After Served close_details s (λ state message. (state, message, refl))
        (unchanged s.shown) i

  select_entry-Alike : (slow : Bool) (v : Value) (sh : Shown) → Alike sh (select_entry slow v sh)
  unfolding select_entry stop_details wait_details show_details select_folder close_menu
      close_details
  select_entry-Alike slow v sh =
      if-either (Alike sh) (is_folder v) _ _ (λ _. unchanged sh)
        (λ _.
          if-either (Alike sh)
            ((is_pdf v || ends_with (path_of v) ".py" || ends_with (path_of v) ".c") && slow)
            (wait_details v (stop_details sh)) (show_details v (stop_details sh))
            (λ _. unchanged sh) (λ _. unchanged sh))

  -- An entry that is listed is on a page with a session.
  pub select_entry-After :
      (slow : Bool) (v : Value) (s : Page)
      → Memᴰ v s.shown.displayed_entries
      → Inv Served s
      → After Served s (on_shown (select_entry slow v) s)
  unfolding on_shown
  select_entry-After slow v s m i =
      live-After Served (select_entry slow v s.shown) s (listed-IsLive Served v s m i)
        (select_entry-Alike slow v s.shown) i

  open_menu-Alike : (again : Bool) (v : Value) (sh : Shown) → Alike sh (open_menu again v sh)
  unfolding open_menu set_menu select_folder close_menu close_details
  open_menu-Alike again v sh =
      if-either (Alike sh) (again && is_some sh.menu_entry) _ _ (λ _. unchanged sh)
        (λ _.
          if-either (Alike sh) (is_folder v) (set_menu v (select_folder v (close_menu sh)))
            (set_menu v (close_menu sh)) (λ _. unchanged sh) (λ _. unchanged sh))

  pub open_menu-After :
      (again : Bool) (v : Value) (s : Page)
      → Memᴰ v s.shown.displayed_entries
      → Inv Served s
      → After Served s (on_shown (open_menu again v) s)
  unfolding on_shown
  open_menu-After again v s m i =
      live-After Served (open_menu again v s.shown) s (listed-IsLive Served v s m i)
        (open_menu-Alike again v s.shown) i

  timer-After :
      (o : Option Value) (connected : Bool) (s : Page)
      → Inv Served s
      → After Served s (
          on_shown
            (λ sh. elim o [
              | none ↦ sh
              | some v ↦
                  if is_some sh.session && connected
                  then show_details v (stop_details sh)
                  else stop_details sh
            ])
            s)
  unfolding on_shown show_details stop_details close_menu close_details
  timer-After none connected s i = same-After Served s i
  timer-After (some v) connected s i =
      if-either (λ t. After Served s (record s { shown = t }))
        (is_some s.shown.session && connected) _ _
        (λ b.
          live-After Served (show_details v (stop_details s.shown)) s
            (and_left (is_some s.shown.session) connected b) (unchanged s.shown) i)
        (λ _. stop_details-After s i)

  pub details_fired-After :
      (connected : Bool) (s : Page)
      → Inv Served s
      → After Served s (on_shown (details_fired connected) s)
  unfolding details_fired on_shown
  details_fired-After connected s i = timer-After s.shown.details_timer connected s i

  pub open_editor-After : (v : Value) (s : Page) → Inv Served s → After Served s (open_editor v s)
  unfolding open_editor visit on_shown stop_details set_toast
  open_editor-After v s i =
      let t = on_shown stop_details s in
      let a = stop_details-After s i in
      if-either (After Served s) (not (is_some t.shown.session) || not (editable v)) t _ (λ _. a)
        (λ _.
          if-either (After Served s) (is_some t.upload || is_some t.transfer || over 262144 v)
            (on_shown (set_toast []) t) (visit (editor_of (path_of v) t.shown.view.directory) t)
            (λ _. clear_toast-After t a.0) (λ _. a))

  pdf_in-After :
      (o : Option Session) (v : Value) (s : Page) → Inv Served s → After Served s (pdf_in o v s)
  unfolding pdf_in visit
  pdf_in-After none v s i = same-After Served s i
  pdf_in-After (some session) v s i =
      if-either (After Served s) (over session.download_limit v) (on_shown (set_toast []) s) _
        (λ _. clear_toast-After s i) (λ _. same-After Served s i)

  pub open_pdf-After : (v : Value) (s : Page) → Inv Served s → After Served s (open_pdf v s)
  unfolding open_pdf on_shown stop_details
  open_pdf-After v s i =
      let t = on_shown stop_details s in pdf_in-After t.shown.session v t (stop_details-After s i).0
