-- ===== src/Files/Drops.antt =====
-- The files that are chosen or dropped, the actions of the menu, and the invariant of the files page.
use mysyncfiles.Prelude.{
  ℕ, ◌≡◌, refl, Bool, true, false, not, ◌||◌, Option, none, some, List, [], Text, text_eq, length,
  leb, ◌==◌, if-either,
}
use mysyncfiles.Value.{Value}
use mysyncfiles.Prog.{pure}
use mysyncfiles.Files.State.{Page, is_some, blank, can_upload}
use mysyncfiles.Files.Selection.{close_menu}
use mysyncfiles.Files.Browse.{on_shown, set_toast, path_of}
use mysyncfiles.Files.Upload.{LocalFile, send_files}
use mysyncfiles.Files.Drop.{
  drag_escape, set_picker, pick, take_picked, picked, clear_drop, set_cancelled, deeper, drag_enter,
  drag_leave, drag_end, drop_files,
}
use mysyncfiles.Files.Menu.{Action, act, menu_clicked, file_of}
use mysyncfiles.Files.Fits.{
  Alike, Server, Inv, Rel_refl, IsLive, Safe, After, same-After, live-After, blank-After,
  earlier-Safe,
}
use mysyncfiles.Files.Moves.{unchanged, shows-IsLive, navigate-Safe}
use mysyncfiles.Files.Picks.{clear_toast-After, close_menu-After, open_editor-After}
use mysyncfiles.Files.Selects.{menu_details-Safe, menu_copy-Safe}
use mysyncfiles.Files.Foldings.{edit_directory-Safe}
use mysyncfiles.Files.Transfers.{download-Safe, or_left_false, eq-true_of_not}
use mysyncfiles.Files.Sendings.{send_files-Safe, can_upload-IsLive}

some_of : {A : Type 0} (o : Option A) → is_some o ≡ true → (a : A) × (o ≡ some a)
some_of none h = let bad : ⊥ = cc in elim bad [ ]
some_of (some a) h = (a, refl)

module _ (Served : Server) where
  pub pick-After :
      (status_page inert : Bool) (s : Page)
      → Inv Served s
      → After Served s (pick status_page inert s)
  unfolding pick on_shown set_picker
  pick-After status_page inert s i =
      if-either (After Served s) (can_upload status_page inert s) _ s
        (λ b.
          live-After Served (set_picker (some (s.shown.view.directory, s.epoch)) s.shown) s
            (can_upload-IsLive status_page inert s b) (unchanged s.shown) i)
        (λ _. same-After Served s i)

  no_picker-After : (s : Page) → Inv Served s → After Served s (on_shown (set_picker none) s)
  unfolding on_shown set_picker blank
  no_picker-After s i =
      blank-After Served (set_picker none) s (λ state message. (state, message, refl))
        (unchanged s.shown) i

  take_picked-Safe :
      (status_page inert : Bool) (files : List LocalFile) (o : Option (Text × ℕ)) (s : Page)
      → Inv Served s
      → Safe Served s (take_picked status_page inert files o s)
  unfolding take_picked
  take_picked-Safe status_page inert files none s i = same-After Served s i
  take_picked-Safe status_page inert files (some (directory, epoch)) s i =
      if-either (Safe Served s) (leb (length files) 0 || not (epoch == s.epoch)) (pure tt s) _
        (λ _. same-After Served s i)
        (λ _.
          if-either (Safe Served s)
            (not (can_upload status_page inert s) || not (text_eq s.shown.view.directory directory))
            (pure tt (on_shown (set_toast []) s)) (send_files status_page inert files directory s)
            (λ _. clear_toast-After Served s i)
            (λ _. send_files-Safe Served status_page inert files directory s i))

  pub picked-Safe :
      (status_page inert : Bool) (files : List LocalFile) (s : Page)
      → Inv Served s
      → Safe Served s (picked status_page inert files s)
  unfolding picked on_shown
  picked-Safe status_page inert files s i =
      let t = on_shown (set_picker none) s in
      earlier-Safe Served s t (take_picked status_page inert files s.shown.picker t) (Rel_refl s)
        (take_picked-Safe status_page inert files s.shown.picker t (no_picker-After s i).0)

  pub drag_end-After : (s : Page) → Inv Served s → After Served s (on_shown drag_end s)
  unfolding on_shown drag_end clear_drop set_cancelled blank
  drag_end-After s i =
      blank-After Served drag_end s (λ state message. (state, message, refl)) (unchanged s.shown) i

  pub drag_escape-After : (s : Page) → Inv Served s → After Served s (on_shown drag_escape s)
  unfolding on_shown drag_escape clear_drop set_cancelled blank
  drag_escape-After s i =
      blank-After Served drag_escape s (λ state message. (state, message, refl))
        (if-either (Alike s.shown) (leb s.shown.drag_depth 0) s.shown _ (λ _. unchanged s.shown)
          (λ _. unchanged s.shown))
        i

  pub drag_enter-After :
      (status_page inert : Bool) (s : Page)
      → Inv Served s
      → After Served s (drag_enter status_page inert s)
  unfolding drag_enter on_shown deeper close_menu
  drag_enter-After status_page inert s i =
      if-either (After Served s) (not (can_upload status_page inert s) || s.shown.drag_cancelled) s
        _ (λ _. same-After Served s i)
        (λ b.
          live-After Served (deeper s.shown) s
            (can_upload-IsLive status_page inert s (
              eq-true_of_not (can_upload status_page inert s)
                (or_left_false (not (can_upload status_page inert s)) s.shown.drag_cancelled b)))
            (unchanged s.shown) i)

  pub drag_leave-After :
      (s : Page) → IsLive s → Inv Served s → After Served s (on_shown drag_leave s)
  unfolding on_shown drag_leave clear_drop
  drag_leave-After s live i =
      if-either (λ t. After Served s (record s { shown = t })) (leb s.shown.drag_depth 1)
        (clear_drop s.shown) _
        (λ _. live-After Served (clear_drop s.shown) s live (unchanged s.shown) i)
        (λ _. live-After Served _ s live (unchanged s.shown) i)

  pub drop_files-Safe :
      (status_page inert folders : Bool) (files : List LocalFile) (s : Page)
      → Inv Served s
      → Safe Served s (drop_files status_page inert folders files s)
  unfolding drop_files on_shown
  drop_files-Safe status_page inert folders files s i =
      let t = on_shown drag_end s in
      let a = drag_end-After s i in
      let directory = s.shown.view.directory in
      if-either (Safe Served s) (not (can_upload status_page inert s) || s.shown.drag_cancelled)
        (pure tt t) _ (λ _. a)
        (λ _.
          if-either (Safe Served s) folders (pure tt (on_shown (set_toast []) t))
            (send_files status_page inert files directory t) (λ _. clear_toast-After Served t a.0)
            (λ _.
              earlier-Safe Served s t (send_files status_page inert files directory t) (Rel_refl s)
                (send_files-Safe Served status_page inert files directory t a.0)))

  act-Safe :
      (connected : Bool) (action : Action) (v : Value) (s : Page)
      → IsLive s
      → Inv Served s
      → Safe Served s (act connected action v s)
  unfolding act
  act-Safe connected Action.opening v s live i = navigate-Safe Served (path_of v) s i
  act-Safe connected Action.editing v s live i = open_editor-After Served v s i
  act-Safe connected Action.details v s live i = menu_details-Safe Served connected v s i
  act-Safe connected Action.renaming v s live i = edit_directory-Safe Served v true s live i
  act-Safe connected Action.deleting v s live i = edit_directory-Safe Served v false s live i
  act-Safe connected Action.downloading v s live i = download-Safe Served (file_of v) s i
  act-Safe connected Action.copying v s live i = menu_copy-Safe Served v s i

  clicked-Safe :
      (o : Option Value) (connected : Bool) (action : Action) (s : Page)
      → (is_some o ≡ true → IsLive s)
      → Inv Served s
      → Safe Served s
          (elim o [ none ↦ pure tt s | some v ↦ act connected action v (on_shown close_menu s) ])
  unfolding on_shown close_menu
  clicked-Safe none connected action s live i = same-After Served s i
  clicked-Safe (some v) connected action s live i =
      let t = on_shown close_menu s in
      earlier-Safe Served s t (act connected action v t) (Rel_refl s)
        (act-Safe connected action v t (live refl) (close_menu-After Served s i).0)

  pub menu_clicked-Safe :
      (connected : Bool) (action : Action) (s : Page)
      → Inv Served s
      → Safe Served s (menu_clicked connected action s)
  unfolding menu_clicked blank
  menu_clicked-Safe connected action s i =
      clicked-Safe s.shown.menu_entry connected action s
        (λ h.
          let (v, same) = some_of s.shown.menu_entry h in
          shows-IsLive Served (λ sh. sh.menu_entry) s v (λ _ _. refl) same i)
        i
