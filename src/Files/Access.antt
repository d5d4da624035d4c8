-- ===== src/Files/Access.antt =====
-- Access to the files (web/atlas.js): `restore`, the verification of the device, `denied`, the logout,
-- and what else locks the page. The state of the buttons and of the spinner is not modelled.
use mysyncfiles.Prelude.{
  ℕ, ◌+◌, ◌*◌, Bool, true, false, not, ◌&&◌, ◌||◌, Option, none, some, List, [], ◌∷◌, Text, codes,
  leb, any, ◌==◌, if◌then◌else◌,
}
use mysyncfiles.Value.{Value, is_text}
use mysyncfiles.Exit.{Error, other, code_is, Exit, ok, err, check}
use mysyncfiles.Prog.{
  ◌>>=◌, ◌>>◌, pure, throw, get_state, modify, request, of_exit, guard, when, try_catch,
  try_finally,
}
use mysyncfiles.Http.{reply, failed, failure, field, optional}
use mysyncfiles.Editor.Checks.{challenge_of}
use mysyncfiles.Files.State.{View, Shown, Page, abort, is_aborted, is_some, lock, accept_session}
use mysyncfiles.Files.Calls.{
  Reply, raw, answer, M, get_session, bridge, probe, open_session, post_proof, log_out, get_proof,
  permission, value_of, local_refusal,
}
use mysyncfiles.Files.Load.{load, load_current}
use mysyncfiles.Files.Browse.{on_shown}

-- `access`
unfoldable pub set_access : Text → Text → Shown → Shown
set_access state message sh = record sh { access_state = state; access_message = message }

-- `{...currentView(), directory: folder}`
unfoldable pub view_in : Text → View → View
view_in directory view = record view { directory = directory }

-- A session that is accepted, on the page of the files.
unfoldable pub take_page : Exit Page → M (Unit {0})
take_page (ok t) s = pure tt t
take_page (err e) s = throw e s

unfoldable pub open_page : ℕ → Value → M (Unit {0})
unfolding accept_session take_page
open_page now v s = take_page (accept_session true now v s) s

unfoldable pub load_in : Text → M (Unit {0})
unfolding load view_in
load_in directory s = load (view_in directory s.shown.view) s

unfoldable pub resume_in : ℕ → Text → Value → M (Unit {0})
unfolding open_page load_in
resume_in now directory v = do open_page now v; load_in directory

unfoldable pub ask_restore : ℕ → Text → ℕ → M (Unit {0})
unfolding resume_in value_of
ask_restore now directory current = do
  v ← of_exit (value_of (← request get_session))
  s ← get_state
  when (current == s.epoch) (resume_in now directory v)

-- `restore`; `directory` is that of the page's address, and `now` the time of the answer.
unfoldable pub restore : ℕ → Text → M (Unit {0})
unfolding ask_restore
restore now directory s = try_catch (ask_restore now directory s.epoch) (λ e. pure tt) s

-- The state of a permission; the browser may not know it.
unfoldable pub is_denied : Exit Value → Bool
is_denied (ok v) = is_text (optional "state" v) (codes "denied")
is_denied (err e) = false

unfoldable pub denied_in : List Text → M Bool
unfolding is_denied value_of
denied_in [] = pure false
denied_in (name ∷ names) = do
  r ← request (permission name)
  let rest = denied_in names in if is_denied (value_of r) then pure true else rest

-- `denied`; `known` tells that the browser has permissions.
unfoldable pub denied : Bool → M Bool
unfolding denied_in
denied known =
    if known
    then denied_in (codes "loopback-network" ∷ codes "local-network-access" ∷ [])
    else pure false

-- The bridge is there if it asks for a challenge.
unfoldable pub probe_check : Reply → Exit (Unit {0})
probe_check (raw b) = err other
probe_check (answer (failed e)) = err e
probe_check (answer (reply status v)) =
    if status == 401 then required (field "error" v) else err (failure "local_unverified")
  where
    required : Exit Value → Exit (Unit {0})
    required (ok x) = check (is_text x (codes "challenge_required")) (failure "local_unverified")
    required (err e) = err e

-- What is thrown for a proof that the server has not confirmed.
unfoldable pub read_refusal : Option Value → Error → Error
read_refusal none e = e
read_refusal (some x) e =
    if code_is e "pending"
    then if is_text x (codes "files_read_disabled")
      then failure "files_read_disabled"
      else if is_text x (codes "invalid_challenge")
      then failure "local_rejected"
      else e
    else e

unfoldable pub ask_proof : Text → M Value
unfolding value_of
ask_proof id = do v ← of_exit (value_of (← request (get_proof id))); pure v

unfoldable pub prove_read : ℕ → M Value
unfolding ask_proof read_refusal local_refusal value_of
prove_read signal = do
  _ ← of_exit (value_of (← request open_session))
  v ← of_exit (value_of (← request post_proof))
  (id, ticket) ← of_exit (challenge_of v)
  a ← request (bridge ticket)
  s ← get_state
  guard (not (is_aborted signal s)) (failure "cancelled")
  try_catch (ask_proof id) (λ e. throw (read_refusal (local_refusal a) e))

unfoldable pub enter_page : ℕ → Value → M (Unit {0})
unfolding open_page load_current
enter_page now v = do open_page now v; load_current

-- `stage = "server"`
unfoldable pub set_stage : Bool → Page → Page
set_stage b s = record s { at_server = b }

unfoldable pub prove_access : ℕ → ℕ → ℕ → M (Unit {0})
unfolding prove_read enter_page
prove_access now signal current = do
  v ← prove_read signal
  s ← get_state
  when (current == s.epoch && not (is_aborted signal s)) (enter_page now v)

unfoldable pub ask_access : ℕ → ℕ → ℕ → M (Unit {0})
unfolding probe_check set_stage prove_access
ask_access now signal current = do
  of_exit (probe_check (← request probe))
  modify (set_stage true)
  prove_access now signal current

unfoldable pub send_log_out : M (Unit {0})
unfolding value_of
send_log_out = do _ ← of_exit (value_of (← request log_out)); pure tt

-- The access screen after a verification that failed in the stage that it was in, with its message.
unfoldable pub message_of : Error → Text
message_of e =
    if code_is e "challenge_limit" || code_is e "status_busy"
    then codes "Trop de vérifications rapprochées. Attendez une minute avant de réessayer."
    else codes
        "Autorisation non confirmée par le serveur. Vérifiez la connexion, l’approbation de l’appareil et l’activation de la lecture web."

unfoldable pub screen_of : Bool → Bool → Error → Text × Text
unfolding message_of
screen_of local refused e =
    if local && refused
    then (codes "denied", [])
    else if code_is e "files_read_disabled"
    then (codes "disabled", [])
    else if code_is e "local_rejected"
    then (codes "rejected", [])
    else if local
    then (codes "unavailable", [])
    else (codes "initial", message_of e)

unfoldable pub show_failure : Error → Bool → Bool → Page → Page
unfolding screen_of set_access on_shown
show_failure e local refused =
    let screen = screen_of local refused e in on_shown (set_access screen.0 screen.1)

unfoldable pub tell_failure : Bool → Error → M (Unit {0})
unfolding denied show_failure
tell_failure known e = do
  s ← get_state
  refused ← if s.at_server then pure false else denied known
  modify (show_failure e (not s.at_server) refused)

unfoldable pub tell_cancelled : M (Unit {0})
unfolding set_access on_shown send_log_out
tell_cancelled = do
  modify (on_shown (set_access (codes "initial") (codes "Vérification annulée.")))
  try_catch send_log_out (λ e. pure tt)

-- The `catch` block.
unfoldable pub fail_access : Bool → ℕ → ℕ → Error → M (Unit {0})
unfolding tell_failure tell_cancelled
fail_access known signal current e = do
  s ← get_state
  when (current == s.epoch)
      (if any (λ i. i == signal) s.cancelled then tell_cancelled else tell_failure known e)

-- `if (verification === controller) verification = undefined`
unfoldable pub end_verify : ℕ → Page → Page
end_verify id s = elim s.verification [
  | none ↦ s
  | some i ↦ if i == id then record s { verification = none } else s
]

unfoldable pub begin_verify : Page → Page
unfolding on_shown set_access
begin_verify s =
    record (on_shown (λ sh. set_access sh.access_state (codes "Vérification en cours…") sh) s) {
      verification = some s.fresh;
      fresh = s.fresh + 1;
      at_server = false;
    }

unfoldable pub verify_with : Bool → ℕ → M (Unit {0})
unfolding begin_verify ask_access fail_access end_verify
verify_with known now s =
    (do
      modify begin_verify
      try_finally (try_catch (ask_access now s.fresh s.epoch) (fail_access known s.fresh s.epoch))
          (modify (end_verify s.fresh)))
      s

-- The handler of the verification's button: one verification at a time.
unfoldable pub verify : Bool → ℕ → M (Unit {0})
unfolding verify_with
verify known now s = if is_some s.verification then pure tt s else verify_with known now s

-- `cancel`
unfoldable pub cancel_verify : Page → Page
unfolding abort
cancel_verify s = record s {
  cancelled = abort s.verification s.cancelled;
  aborted = abort s.verification s.aborted;
}

unfoldable pub log_out_failed : Page → Page
unfolding set_access on_shown
log_out_failed = on_shown (
    set_access (codes "initial")
      (codes "Déconnexion serveur non confirmée. Réessayez lorsque la connexion est rétablie."))

unfoldable pub log_out_asked : M (Unit {0})
unfolding send_log_out set_access on_shown
log_out_asked = do
  send_log_out
  modify (on_shown (set_access (codes "initial") (codes "Vous êtes déconnecté.")))

-- The handler of the logout's button.
unfoldable pub logout : M (Unit {0})
unfolding lock log_out_asked log_out_failed
logout = do
  modify (lock (codes "initial") (codes "Déconnexion en cours…"))
  try_catch log_out_asked (λ e. modify log_out_failed)

-- The handler of `visibilitychange`; `now` is `Date.now()`.
unfoldable pub became_visible : ℕ → Page → Page
unfolding lock
became_visible now s = elim s.shown.session [
  | none ↦ s
  | some session ↦ if leb (session.expires_at * 1000) now then lock (codes "expired") [] s else s
]
