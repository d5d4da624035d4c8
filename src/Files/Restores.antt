-- ===== src/Files/Restores.antt =====
-- `restore`, and the invariant of the files page.
use mysyncfiles.Prelude.{ℕ, ◌≡◌, refl, true, not, ◌&&◌, some, Text, ◌==◌, subst}
use mysyncfiles.Value.{Value}
use mysyncfiles.Exit
use mysyncfiles.Exit.{Error, Exit, ok, err}
use mysyncfiles.Prog.{pure}
use mysyncfiles.Prog.Stable
use mysyncfiles.Files.State.{Session, Page, blank, session_of, accept_session}
use mysyncfiles.Files.Calls.{value_of}
use mysyncfiles.Files.Browse.{on_shown}
use mysyncfiles.Files.Access.{
  set_access, view_in, take_page, open_page, load_in, resume_in, ask_restore, restore,
}
use mysyncfiles.Files.Fits.{
  Server, Inv, Rel_refl, Safe, After, same-After, blank-After, bind-Safe, catch-Safe,
}
use mysyncfiles.Files.Loads.{load-Safe}
use mysyncfiles.Files.Moves.{unchanged}

module _ (Served : Server) where
  -- What the access screen tells leaves a blank page blank.
  pub set_access-After :
      (state message : Text) (s : Page)
      → Inv Served s
      → After Served s (on_shown (set_access state message) s)
  unfolding on_shown set_access blank
  set_access-After state message s i =
      blank-After Served (set_access state message) s (λ _ _. (state, message, refl))
        (unchanged s.shown) i

  accepted-After :
      (x : Exit Session) (s t : Page)
      → Inv Served s
      → Exit.◌>>=◌ x (λ session. ok (record s {
        shown = record s.shown {
          session = some session;
          explorer_hidden = s.shown.explorer_hidden && not true;
        };
      }))
        ≡ ok t
      → After Served s t
  accepted-After (err e) s t i h = let bad : ⊥ = cc in elim bad [ ]
  accepted-After (ok session) s t i h =
      let u = record s {
        shown = record s.shown {
          session = some session;
          explorer_hidden = s.shown.explorer_hidden && not true;
        };
      } in
      let same : u ≡ t = cc in
      subst (After Served s) same (
        (
          record {
            bare = λ h. let bad : ⊥ = cc in elim bad [ ];
            paged = i.0.paged;
            retried = i.0.retried;
            searched = i.0.searched;
            answered = i.0.answered;
            snapped = i.0.snapped;
          },
          i.1,
        ),
        ((Rel_refl s).0, λ _ _. refl, (Rel_refl s).2, (Rel_refl s).3),
        tt,
      )

  take_page-Safe :
      (x : Exit Page) (s : Page)
      → ((t : Page) → x ≡ ok t → After Served s t)
      → Inv Served s
      → Safe Served s (take_page x s)
  unfolding take_page
  take_page-Safe (ok t) s h i = h t refl
  take_page-Safe (err e) s h i = (i, Rel_refl s)

  pub open_page-Safe :
      (now : ℕ) (v : Value) (s : Page) → Inv Served s → Safe Served s (open_page now v s)
  unfolding open_page accept_session
  open_page-Safe now v s i =
      take_page-Safe (accept_session true now v s) s
        (λ t h. accepted-After (session_of now v) s t i h) i

  load_in-Safe : (directory : Text) (s : Page) → Inv Served s → Safe Served s (load_in directory s)
  unfolding load_in view_in
  load_in-Safe directory s i = load-Safe Served (view_in directory s.shown.view) s i.0.paged i

  ask_restore-Safe :
      (now : ℕ) (directory : Text) (current : ℕ) (s : Page)
      → Inv Served s
      → Safe Served s (ask_restore now directory current s)
  unfolding ask_restore resume_in
  ask_restore-Safe now directory current s i = (
    i,
    Rel_refl s,
    tt,
    λ r t _ j _. Stable.of_exit-Ensures _ _ _ _ _ t t j (Rel_refl t) (value_of r) _ λ v _.
        Stable.when-Safe _ _ _ _ t t (current == t.epoch) (resume_in now directory v) j (Rel_refl t)
          λ _.
            bind-Safe Served (λ _. load_in directory) t (open_page now v t)
              (open_page-Safe now v t j) (λ _ u k _. load_in-Safe directory u k),
  )

  pub restore-Safe :
      (now : ℕ) (directory : Text) (s : Page)
      → Inv Served s
      → Safe Served s (restore now directory s)
  unfolding restore
  restore-Safe now directory s i =
      catch-Safe Served (λ e. pure tt) s (ask_restore now directory s.epoch s)
        (ask_restore-Safe now directory s.epoch s i) (λ e w j _. same-After Served w j)
