-- ===== src/Files/Foldings.antt =====
-- Renaming and deleting a folder, and the invariant of the files page.
use mysyncfiles.Prelude.{
  sym, ap, subst, ◌∙◌, ◌<◌, some-injective, arith, if-either, ℕ, ◌≡◌, refl, Bool, true, false, not,
  ◌&&◌, ◌||◌, Option, none, some, [], Text, codes, ◌==◌, if◌then◌else◌,
}
use mysyncfiles.Value.{Value, is_null, truthy}
use mysyncfiles.Exit.{Error, code_is}
use mysyncfiles.Prog.{pure, modify, try_catch}
use mysyncfiles.Prog.Stable
use mysyncfiles.Http.{failure, optional}
use mysyncfiles.Files.State.{FolderAction, Page, is_some, is_aborted, blank, lock}
use mysyncfiles.Files.Calls.{value_of, authorize_upload, is_refused, manage}
use mysyncfiles.Files.Listing.{may_rename}
use mysyncfiles.Files.Load.{load_current}
use mysyncfiles.Files.Browse.{on_shown, set_toast, basename, directory_info, path_of}
use mysyncfiles.Files.Folder.{
  set_action, is_action, is_operation, update, on_action, set_snapshot, set_disabled, set_sent,
  is_sent, close_folder, begin_edit, take_snapshot, ask_snapshot, fail_edit, edit_with,
  edit_directory, change_check, name_sent, finish_change, send_change, ask_change, may_retry,
  fail_change, begin_submit, submit_with, may_submit, submit,
}
use mysyncfiles.Files.Fits.{
  Follows, IsSnapped, Sends, Serves, Rel, Rel_trans, live-absurd, Server, Inv, Rel_refl, IsLive,
  IsNamed, Safe, After, same-After, lock-After, bind-Safe, catch-Safe, try-Safe, earlier-Safe,
}
use mysyncfiles.Files.Loads.{eq_sound, and_left, and_right, current-IsLive, load_current-Safe}
use mysyncfiles.Files.Picks.{clear_toast-After}
use mysyncfiles.Files.Selects.{directory_info-Ensures}
use mysyncfiles.Files.Rights.{authorize_upload-Safe}

is_operation-epoch :
    (current id : ℕ) (s : Page) → is_operation current id s ≡ true → current ≡ s.epoch
unfolding is_operation
is_operation-epoch current id s h =
    eq_sound current s.epoch (and_left (current == s.epoch) (is_action id s.shown.folder_action) h)

or_right : (b c : Bool) → b ≡ true → (not b || c) ≡ true → c ≡ true
or_right true c h k = k
or_right false c h k = let bad : ⊥ = cc in elim bad [ ]

-- A change of the operation that keeps its number and its folder.
abbrev IsSteady : (FolderAction → FolderAction) → Type 0
IsSteady f = (a : FolderAction) → (a.id ≡ (f a).id) × (a.path ≡ (f a).path)

update-Follows :
    (n : ℕ) (f : FolderAction → FolderAction) (id : ℕ) (o : Option FolderAction)
    → IsSteady f
    → Follows n o (update f id o)
unfolding update
update-Follows n f id none steady = tt
update-Follows n f id (some a) steady =
    if-either (Follows n (some a)) (a.id == id) (some (f a)) (some a)
      (λ _ _. (a, refl, (steady a).0, (steady a).1)) (λ _ _. (a, refl, refl, refl))

-- The page's operation, if it has this number, is of this folder.
abbrev IsOf : ℕ → Text → Page → Type 0
IsOf id path s = (a : FolderAction) → s.shown.folder_action ≡ some a → a.id ≡ id → a.path ≡ path

later-IsOf :
    (id : ℕ) (path : Text) (s t : Page) → id < s.fresh → IsOf id path s → Rel s t → IsOf id path t
later-IsOf id path s t old own l b there same =
    let (a, first, alike, way) =
      subst (Follows s.fresh s.shown.folder_action) there l.3 (omega (arith, same, old)) in
    sym way ∙ own a first (alike ∙ same)

module _ (Served : Server) where
  -- Another operation, or none, in the place of the page's.
  action-After :
      (o : Option FolderAction) (s : Page)
      → IsSnapped Served o
      → Follows s.fresh s.shown.folder_action o
      → (s.shown.folder_action ≡ none → o ≡ none)
      → Inv Served s
      → After Served s (on_shown (set_action o) s)
  unfolding on_shown set_action blank
  action-After o s snapped follows empty i = (
    (
      record {
        bare = λ h.
            let (state, message, same) = i.0.bare h in
            (
              state,
              message,
              ap (λ p. set_action p s.shown) (empty (ap (λ sh. sh.folder_action) same))
                  ∙ ap (set_action none) same,
            );
        paged = i.0.paged;
        retried = i.0.retried;
        searched = i.0.searched;
        answered = i.0.answered;
        snapped = snapped;
      },
      i.1,
    ),
    (omega arith, λ _ l. l, omega arith, follows),
    tt,
  )

  update-IsSnapped :
      (f : FolderAction → FolderAction) (id : ℕ) (o : Option FolderAction)
      → ((a : FolderAction)
          → o ≡ some a
          → a.id ≡ id
          → IsSnapped Served (some a)
          → IsSnapped Served (some (f a)))
      → IsSnapped Served o
      → IsSnapped Served (update f id o)
  unfolding update
  update-IsSnapped f id none k h = tt
  update-IsSnapped f id (some a) k h =
      if-either (IsSnapped Served) (a.id == id) (some (f a)) (some a)
        (λ b. k a refl (eq_sound a.id id b) h) (λ _. h)

  changed-After :
      (f : FolderAction → FolderAction) (id : ℕ) (s : Page)
      → IsSteady f
      → ((a : FolderAction)
          → s.shown.folder_action ≡ some a
          → a.id ≡ id
          → IsSnapped Served (some a)
          → IsSnapped Served (some (f a)))
      → Inv Served s
      → After Served s (on_action f id s)
  unfolding on_action update
  changed-After f id s steady k i =
      action-After (update f id s.shown.folder_action) s
        (update-IsSnapped f id s.shown.folder_action k i.0.snapped)
        (update-Follows s.fresh f id s.shown.folder_action steady) (λ h. ap (update f id) h) i

  set_disabled-After :
      (b : Bool) (id : ℕ) (s : Page)
      → Inv Served s
      → After Served s (on_action (set_disabled b) id s)
  unfolding set_disabled
  set_disabled-After b id s i =
      changed-After (set_disabled b) id s (λ _. (refl, refl)) (λ a _ _ h. h) i

  set_sent-After :
      (b : Bool) (id : ℕ) (s : Page) → Inv Served s → After Served s (on_action (set_sent b) id s)
  unfolding set_sent
  set_sent-After b id s i = changed-After (set_sent b) id s (λ _. (refl, refl)) (λ a _ _ h. h) i

  may_retry-After :
      (e : Error) (id : ℕ) (s : Page) → Inv Served s → After Served s (on_action (may_retry e) id s)
  unfolding may_retry
  may_retry-After e id s i = changed-After (may_retry e) id s (λ _. (refl, refl)) (λ a _ _ h. h) i

  no_action-After : (s : Page) → Inv Served s → After Served s (on_shown (set_action none) s)
  no_action-After s i = action-After none s tt tt (λ _. refl) i

  pub close_folder-After : (s : Page) → Inv Served s → After Served s (close_folder s)
  unfolding close_folder
  close_folder-After s i =
      if-either (After Served s) (is_sent s.shown.folder_action) s _ (λ _. same-After Served s i)
        (λ _. no_action-After s i)

  set_snapshot-After :
      (id : ℕ) (path : Text) (snapshot : Value) (s : Page)
      → IsOf id path s
      → Served.snapshot path snapshot
      → Inv Served s
      → After Served s (on_action (set_snapshot snapshot) id s)
  unfolding set_snapshot
  set_snapshot-After id path snapshot s own given i =
      changed-After (set_snapshot snapshot) id s (λ _. (refl, refl))
        (λ a there same _ _. subst (λ p. Served.snapshot p snapshot) (sym (own a there same)) given)
        i

  take_snapshot-Safe :
      (id : ℕ) (path : Text) (snapshot : Value) (s : Page)
      → IsOf id path s
      → Served.snapshot path snapshot
      → Inv Served s
      → Safe Served s (take_snapshot id snapshot s)
  unfolding take_snapshot
  take_snapshot-Safe id path snapshot s own given i =
      let t = on_action (set_snapshot snapshot) id s in
      let a = set_snapshot-After id path snapshot s own given i in
      Stable.guard-Ensures _ _ _ _ _ s t a.0 a.1 (not (is_null snapshot))
        (failure "directory_too_large") _
        λ _.
          earlier-Safe Served s t (modify (on_action (set_disabled false) id) t) a.1
            (set_disabled-After false id t a.0)

  ask_snapshot-Safe :
      (current id : ℕ) (path : Text) (s : Page)
      → id < s.fresh
      → IsOf id path s
      → Inv Served s
      → Safe Served s (ask_snapshot current id path s)
  unfolding ask_snapshot
  ask_snapshot-Safe current id path s old own i =
      Stable.bind-Ensures (Serves Served) (Inv Served) Rel (Sends Served) Rel_refl Rel_trans
        (λ info _. Served.snapshot path (optional "snapshot" info)) (λ _ _. Unit) _ s
        (directory_info path s)
        (directory_info-Ensures Served (λ info _. Served.snapshot path (optional "snapshot" info))
          path s (λ _ _ given. given) i)
        (λ info t j l given.
          Stable.when-Safe _ _ _ _ t t (is_operation current id t)
            (take_snapshot id (optional "snapshot" info)) j (Rel_refl t)
            (λ _.
              take_snapshot-Safe id path (optional "snapshot" info) t
                (later-IsOf id path s t old own l) given j))

  fail_edit-After :
      (current id : ℕ) (e : Error) (s : Page)
      → Inv Served s
      → After Served s (fail_edit current id e s)
  unfolding fail_edit
  fail_edit-After current id e s i =
      if-either (After Served s)
        (is_operation current id s && not (is_aborted id s) && code_is e "session_expired") _ s
        (λ _. lock-After Served (codes "expired") [] s i) (λ _. same-After Served s i)

  edit_with-Safe :
      (v : Value) (rename : Bool) (s : Page)
      → IsLive s
      → Inv Served s
      → Safe Served s (edit_with v rename s)
  unfolding edit_with begin_edit on_shown set_action truthy
  edit_with-Safe v rename s live i =
      let t = begin_edit v rename s in
      earlier-Safe Served s t
        (try_catch (ask_snapshot s.epoch s.fresh (path_of v))
          (λ e. modify (fail_edit s.epoch s.fresh e)) t)
        (
          omega arith,
          λ _ l. l,
          omega arith,
          λ small. let bad : ⊥ = omega (arith, small) in elim bad [ ],
        )
        (catch-Safe Served (λ e. modify (fail_edit s.epoch s.fresh e)) t
          (ask_snapshot s.epoch s.fresh (path_of v) t)
          (ask_snapshot-Safe s.epoch s.fresh (path_of v) t (omega arith)
            (λ a there _. sym (ap (λ b. b.path) (some-injective _ _ there)))
            (
              record {
                bare = λ h. live-absurd s live h;
                paged = i.0.paged;
                retried = i.0.retried;
                searched = i.0.searched;
                answered = i.0.answered;
                snapped = λ h. let bad : ⊥ = cc in elim bad [ ];
              },
              i.1,
            ))
          (λ e w j _. fail_edit-After s.epoch s.fresh e w j))

  pub edit_directory-Safe :
      (v : Value) (rename : Bool) (s : Page)
      → IsLive s
      → Inv Served s
      → Safe Served s (edit_directory v rename s)
  unfolding edit_directory
  edit_directory-Safe v rename s live i =
      if-either (Safe Served s)
        (not (is_some s.shown.session)
          || is_some s.shown.folder_action
          || is_some s.upload
          || is_some s.transfer)
        (pure tt (on_shown (set_toast []) s)) (edit_with v rename s)
        (λ _. clear_toast-After Served s i) (λ _. edit_with-Safe v rename s live i)

  finish_change-Safe : (s : Page) → Inv Served s → Safe Served s (finish_change s)
  unfolding finish_change on_shown set_toast set_action
  finish_change-Safe s i =
      let t = on_shown (set_action none) s in
      let u = on_shown (set_toast []) t in
      earlier-Safe Served s u (load_current u) (no_action-After s i).1
        (load_current-Safe Served u (clear_toast-After Served t (no_action-After s i).0).0)

  send_change-Safe :
      (current : ℕ) (a : FolderAction) (name : Text) (s : Page)
      → IsLive s
      → (truthy a.snapshot ≡ true)
      → Served.snapshot a.path a.snapshot
      → IsNamed a.path (name_sent a name)
      → Inv Served s
      → Safe Served s (send_change current a name s)
  unfolding send_change on_action on_shown set_action
  send_change-Safe current a name s live informed given named i =
      let b = set_sent-After true a.id s i in
      (
        b.0,
        b.1,
        (live, informed, given, named),
        λ r t _ j _. Stable.of_exit-Ensures _ _ _ _ _ t t j (Rel_refl t) (value_of r) _ λ v _.
            Stable.of_exit-Ensures _ _ _ _ _ t t j (Rel_refl t) (change_check v) _ λ _ _.
              Stable.when-Safe _ _ _ _ t t (is_operation current a.id t) finish_change j
                (Rel_refl t) (λ _. finish_change-Safe t j),
      )

  ask_change-Safe :
      (signal current : ℕ) (a : FolderAction) (name : Text) (s : Page)
      → current ≡ s.epoch
      → IsLive s
      → (truthy a.snapshot ≡ true)
      → Served.snapshot a.path a.snapshot
      → IsNamed a.path (name_sent a name)
      → Inv Served s
      → Safe Served s (ask_change signal current a name s)
  unfolding ask_change
  ask_change-Safe signal current a name s same live informed given named i =
      bind-Safe Served _ s (authorize_upload signal manage s)
        (authorize_upload-Safe Served signal manage s i)
        (λ _ t j l.
          Stable.when-Safe _ _ _ _ t t (is_operation current a.id t && not (is_aborted signal t))
            (send_change current a name) j (Rel_refl t)
            (λ b.
              send_change-Safe current a name t
                (current-IsLive s t current same live l (
                  is_operation-epoch current a.id t
                    (and_left (is_operation current a.id t) (not (is_aborted signal t)) b)))
                informed given named j))

  fail_change-After :
      (signal current id : ℕ) (e : Error) (s : Page)
      → Inv Served s
      → After Served s (fail_change signal current id e s)
  unfolding fail_change
  fail_change-After signal current id e s i =
      if-either (After Served s) (not (is_operation current id s) || is_aborted signal s) s _
        (λ _. same-After Served s i)
        (λ _.
          if-either (After Served s) (is_refused e) (lock (codes "expired") [] s)
            (on_action (may_retry e) id s) (λ _. lock-After Served (codes "expired") [] s i)
            (λ _. may_retry-After e id s i))

  may_submit-IsNamed :
      (a : FolderAction) (name : Text)
      → (not a.rename || may_rename (basename a.path) name) ≡ true
      → IsNamed a.path (name_sent a name)
  unfolding name_sent
  may_submit-IsNamed a name h =
      if-either (λ o. a.rename ≡ a.rename → IsNamed a.path o) a.rename (some name) none
        (λ renames _. or_right a.rename (may_rename (basename a.path) name) renames h) (λ _ _. tt)
        refl

  submit_with-Safe :
      (a : FolderAction) (name : Text) (s : Page)
      → may_submit a name s ≡ true
      → IsSnapped Served (some a)
      → Inv Served s
      → Safe Served s (submit_with a name s)
  unfolding submit_with may_submit begin_submit on_action on_shown set_action
  submit_with-Safe a name s may snapped i =
      let d = set_disabled-After true a.id s i in
      let t = begin_submit a.id s in
      let ready = truthy a.snapshot && not a.disabled in
      let named = not a.rename || may_rename (basename a.path) name in
      let before = and_left (ready && is_some s.shown.session) named may in
      let informed =
        and_left (truthy a.snapshot) (not a.disabled)
          (and_left ready (is_some s.shown.session) before) in
      try-Safe Served (λ e. modify (fail_change s.fresh s.epoch a.id e))
        (on_action (set_sent false) a.id) s t (ask_change s.fresh s.epoch a name t)
        (d.1.0, d.1.1, omega arith, d.1.3)
        (ask_change-Safe s.fresh s.epoch a name t refl
          (and_right ready (is_some s.shown.session) before) informed (snapped informed)
          (may_submit-IsNamed a name (and_right (ready && is_some s.shown.session) named may)) d.0)
        (λ e w j _. fail_change-After s.fresh s.epoch a.id e w j)
        (λ w j. set_sent-After false a.id w j)

  submitted-Safe :
      (o : Option FolderAction) (name : Text) (s : Page)
      → IsSnapped Served o
      → Inv Served s
      → Safe Served s (elim o [
        | none ↦ pure tt s
        | some a ↦ if may_submit a name s then submit_with a name s else pure tt s
      ])
  submitted-Safe none name s snapped i = same-After Served s i
  submitted-Safe (some a) name s snapped i =
      if-either (Safe Served s) (may_submit a name s) (submit_with a name s) (pure tt s)
        (λ may. submit_with-Safe a name s may snapped i) (λ _. same-After Served s i)

  pub submit-Safe : (name : Text) (s : Page) → Inv Served s → Safe Served s (submit name s)
  unfolding submit
  submit-Safe name s i = submitted-Safe s.shown.folder_action name s i.0.snapped i
