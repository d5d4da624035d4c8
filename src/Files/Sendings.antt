-- ===== src/Files/Sendings.antt =====
-- Uploads, and the invariant of the files page.
use mysyncfiles.Prelude.{
  ℕ, ◌≡◌, refl, Bool, true, false, not, ◌&&◌, ◌||◌, Option, none, some, List, [], ◌∷◌, Text, codes,
  length, ltb, ◌==◌, if◌then◌else◌, if-either, arith,
}
use mysyncfiles.Exit.{Error, code_is}
use mysyncfiles.Prog.{done, pure, modify, throw, when, bind, try_catch, try_finally}
use mysyncfiles.Prog.Stable
use mysyncfiles.Files.State.{Session, Page, is_aborted, is_some, blank, lock, can_upload}
use mysyncfiles.Files.Calls.{write, hash_of, value_of, authorize_upload}
use mysyncfiles.Files.Upload.{
  Sending, LocalFile, is_live, check_live, may_send, set_active, send_body, file_failed,
  drop_upload, end_file, send_file, send_each, send_all, fail_upload, end_upload, load_after,
  finish_sending, start_upload, run_sending, sending_of, with_session, send_files,
}
use mysyncfiles.Files.Browse.{on_shown, set_toast}
use mysyncfiles.Files.Picks.{clear_toast-After}
use mysyncfiles.Files.Fits.{
  Server, Inv, Rel, Rel_refl, Rel_fresh, IsLive, Serves, Sends, Rel_trans, Safe, After, same-After,
  blank-After, lock-After, bind-Safe, catch-Safe, earlier-Safe,
}
use mysyncfiles.Files.Loads.{load_current-Safe}
use mysyncfiles.Files.Moves.{unchanged}
use mysyncfiles.Files.Rights.{authorize_upload-Safe}
use mysyncfiles.Files.Transfers.{Apart-upload, Apart-transfer}
use mysyncfiles.Files.Load.{load_current}
use mysyncfiles.Files.Parts.{check_live-Safe, send_content-Safe}

-- The page sends files with a session only.
pub can_upload-IsLive :
    (status_page inert : Bool) (s : Page) → can_upload status_page inert s ≡ true → IsLive s
unfolding can_upload
can_upload-IsLive status_page inert s h = ground arith

can_upload-alone :
    (status_page inert : Bool) (s : Page)
    → can_upload status_page inert s ≡ true
    → is_some s.transfer ≡ false
unfolding can_upload
can_upload-alone status_page inert s h = ground arith

module _ (Served : Server) where
  drop_upload-Safe : (o : Option Text) (s : Page) → Inv Served s → Safe Served s (drop_upload o s)
  unfolding drop_upload
  drop_upload-Safe none s i = same-After Served s i
  drop_upload-Safe (some id) s i = (
    i,
    Rel_refl s,
    tt,
    λ r t _ j _.
        catch-Safe Served (λ e. pure tt) t (bind (λ _. pure tt) (done (value_of r) t))
          (Stable.of_exit-Ensures _ _ _ _ _ t t j (Rel_refl t) (value_of r) _
            (λ _ _. same-After Served t j))
          (λ e w k _. same-After Served w k),
  )

  file_failed-Safe :
      (t : Sending) (e : Error) (s : Page) → Inv Served s → Safe Served s (file_failed t e s)
  unfolding file_failed
  file_failed-Safe t e s i =
      if-either (λ m. Safe Served s (m s))
        (is_aborted t.id s
          || not (is_live t s)
          || code_is e "session_expired"
          || code_is e "authentication_refused"
          || code_is e "files_write_required")
        (throw e) (pure tt) (λ _. (i, Rel_refl s)) (λ _. same-After Served s i)

  end_file-Safe : (t : Sending) (s : Page) → Inv Served s → Safe Served s (end_file t s)
  unfolding end_file set_active
  end_file-Safe t s i =
      bind-Safe Served (λ _. modify (set_active none)) s
        (when (is_live t s) (drop_upload s.active_id) s)
        (Stable.when-Safe _ _ _ _ s s (is_live t s) (drop_upload s.active_id) i (Rel_refl s)
          (λ _. drop_upload-Safe s.active_id s i))
        (λ _ w j _. (j, Rel_refl w, tt))

  send_body-Safe :
      (t : Sending) (file : LocalFile) (s : Page)
      → Inv Served s
      → Safe Served s (send_body t file s)
  unfolding send_body
  send_body-Safe t file s i = (
    i,
    Rel_refl s,
    tt,
    λ r w _ j _.
        Stable.of_exit-Ensures _ _ _ _ _ w w j (Rel_refl w) (hash_of r) _
          λ sha256 _. send_content-Safe Served t file sha256 w j,
  )

  send_file-Safe :
      (t : Sending) (file : LocalFile) (s : Page)
      → Inv Served s
      → Safe Served s (send_file t file s)
  unfolding send_file
  send_file-Safe t file s i =
      Stable.finally_by-Safe (Serves Served) (Inv Served) Rel (Sends Served) Rel_refl Rel_trans
        (end_file t) s (try_catch (send_body t file) (file_failed t) s)
        (catch-Safe Served (file_failed t) s (send_body t file s) (send_body-Safe t file s i)
          (λ e w j _. file_failed-Safe t e w j))
        (end_file-Safe t)

  send_each-Safe :
      (t : Sending) (files : List LocalFile) (s : Page)
      → Inv Served s
      → Safe Served s (send_each t files s)
  unfolding send_each
  send_each-Safe t [] s i = check_live-Safe Served t s i
  send_each-Safe t (file ∷ files) s i =
      bind-Safe Served _ s (check_live t s) (check_live-Safe Served t s i) λ _ u j _.
        bind-Safe Served (λ _. send_each t files) u (when (may_send t file) (send_file t file) u)
          (Stable.when-Safe _ _ _ _ u u (may_send t file) (send_file t file) j (Rel_refl u)
            (λ _. send_file-Safe t file u j))
          (λ _ w k _. send_each-Safe t files w k)

  send_all-Safe :
      (t : Sending) (files : List LocalFile) (s : Page)
      → Inv Served s
      → Safe Served s (send_all t files s)
  unfolding send_all
  send_all-Safe t files s i =
      bind-Safe Served _ s (authorize_upload t.id write s)
        (authorize_upload-Safe Served t.id write s i)
        λ _ u j _.
          bind-Safe Served _ u (check_live t u) (check_live-Safe Served t u j)
            λ _ w k _. send_each-Safe t files w k

  fail_upload-After :
      (t : Sending) (e : Error) (s : Page) → Inv Served s → After Served s (fail_upload t e s)
  unfolding fail_upload
  fail_upload-After t e s i =
      if-either (After Served s)
        (is_live t s && (code_is e "session_expired" || code_is e "authentication_refused"))
        (lock (codes "expired") [] s) s (λ _. lock-After Served (codes "expired") [] s i)
        (λ _. same-After Served s i)

  sent-After :
      (o : Option ℕ) (id : ℕ) (s : Page)
      → Inv Served s
      → After Served s
          (elim o [ none ↦ s | some i ↦ if i == id then record s { upload = none } else s ])
  sent-After none id s i = same-After Served s i
  sent-After (some n) id s i =
      if-either (After Served s) (n == id) (record s { upload = none }) s
        (λ _. ((i.0, Apart-upload none s.transfer refl), Rel_refl s, tt))
        (λ _. same-After Served s i)

  end_upload-After : (id : ℕ) (s : Page) → Inv Served s → After Served s (end_upload id s)
  unfolding end_upload
  end_upload-After id s i = sent-After s.upload id s i

  finish_sending-Safe : (t : Sending) (s : Page) → Inv Served s → Safe Served s (finish_sending t s)
  unfolding finish_sending load_after
  finish_sending-Safe t s i =
      bind-Safe Served (λ _. load_after t) s (modify (end_upload t.id) s)
        (end_upload-After t.id s i)
        λ _ u j _.
          Stable.when-Safe _ _ _ _ u u
            (is_live t u && not (is_some u.listing) && not (is_some u.shown.retry_view))
            load_current j (Rel_refl u) (λ _. load_current-Safe Served u j)

  run_sending-Safe :
      (t : Sending) (files : List LocalFile) (s : Page)
      → is_some s.transfer ≡ false
      → Inv Served s
      → Safe Served s (run_sending t files s)
  unfolding run_sending start_upload blank
  run_sending-Safe t files s alone i =
      let u = start_upload s in
      earlier-Safe Served s u
        (try_finally (try_catch (send_all t files) (λ e. modify (fail_upload t e)))
          (finish_sending t) u)
        (Rel_fresh s)
        (Stable.finally_by-Safe (Serves Served) (Inv Served) Rel (Sends Served) Rel_refl Rel_trans
          (finish_sending t) u (try_catch (send_all t files) (λ e. modify (fail_upload t e)) u)
          (catch-Safe Served (λ e. modify (fail_upload t e)) u (send_all t files u)
            (send_all-Safe t files u (
              (blank-After Served (λ sh. record sh { drag_depth = 0 }) s
                  (λ state message. (state, message, refl)) (unchanged s.shown) i).0.0,
              Apart-transfer (some s.fresh) s.transfer alone,
            ))
            (λ e w j _. fail_upload-After t e w j))
          (finish_sending-Safe t))

  with_session-Safe :
      (o : Option Session) (files : List LocalFile) (destination : Text) (s : Page)
      → is_some s.transfer ≡ false
      → Inv Served s
      → Safe Served s (with_session o files destination s)
  unfolding with_session
  with_session-Safe none files destination s alone i = same-After Served s i
  with_session-Safe (some session) files destination s alone i =
      run_sending-Safe (sending_of session destination s) files s alone i

  pub send_files-Safe :
      (status_page inert : Bool) (files : List LocalFile) (destination : Text) (s : Page)
      → Inv Served s
      → Safe Served s (send_files status_page inert files destination s)
  unfolding send_files
  send_files-Safe status_page inert files destination s i =
      if-either (Safe Served s) (not (can_upload status_page inert s) || not (ltb 0 (length files)))
        (pure tt s) _ (λ _. same-After Served s i)
        (λ h.
          if-either (Safe Served s) (ltb 50 (length files)) (pure tt (on_shown (set_toast []) s))
            (with_session s.shown.session files destination s) (λ _. clear_toast-After Served s i)
            (λ _.
              with_session-Safe s.shown.session files destination s
                (can_upload-alone status_page inert s
                  (let b : can_upload status_page inert s ≡ true = ground arith in b))
                i))
