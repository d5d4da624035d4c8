-- ===== src/Files/Calls.antt =====
-- What the handlers of the files page wait for, and the authorisation of an upload or of a change to
-- a folder (`authorizeUpload`, web/atlas.js).
use mysyncfiles.Prelude.{
  ℕ, Bool, not, ◌||◌, Option, none, some, [], ◌∷◌, Text, is_any, if◌then◌else◌,
}
use mysyncfiles.Value.{Value, as_text}
use mysyncfiles.Exit.{Error, other, code_is, Exit, ok, err}
use mysyncfiles.Prog
use mysyncfiles.Prog.{◌>>=◌, ◌>>◌, pure, throw, get_state, request, of_exit, guard, try_catch}
use mysyncfiles.Http.{Answer, reply, failed, failure, error_of, body_of}
use mysyncfiles.Editor.Checks.{challenge_of, digest_of}
use mysyncfiles.Editor.Open.{local_error}
use mysyncfiles.Files.Reader.{Bytes}
use mysyncfiles.Files.State.{Query, Page, is_aborted}

pub data Scope : Type 0 where
  write manage : Scope

pub data Call : Type 0 where
  -- `/v1/web/files/chunk` with the path, the revision and the offset
  get_chunk : Text → ℕ → ℕ → Call
  -- `crypto.subtle.digest`
  sha : Bytes → Call
  -- `/v1/web/files/session`, `/v1/web/files/<scope>/session`, `…/challenges` by POST, `…/challenges/<id>`
  get_session : Call
  get_scope post_challenge : Scope → Call
  get_challenge : Scope → Text → Call
  -- the bridge on this computer, with the ticket of a challenge
  bridge : Text → Call
  -- `/v1/web/files/uploads` by POST with the path, the size and the digest
  create : Text → ℕ → Text → Call
  -- `/v1/web/files/uploads/<id>` by PUT with an offset and a part, `…/commit`, and DELETE
  put : Text → ℕ → Bytes → Call
  commit delete : Text → Call
  -- `/v1/web/files/entries` with the query, and `/v1/web/files/directories` with a path
  get_entries : Query → Call
  get_directory : Text → Call
  -- `/v1/web/files/directories/rename`, or `/delete` without a name, with the path and the snapshot
  change : Text → Value → Option Text → Call
  -- `/v1/status` of the bridge without a ticket
  probe : Call
  -- `/v1/web/files/session`, `…/challenges` and `…/logout` by POST, and `…/challenges/<id>`
  open_session post_proof log_out : Call
  get_proof : Text → Call
  -- `navigator.permissions.query` and `navigator.clipboard.writeText`
  permission copy_text : Text → Call

pub data Reply : Type 0 where
  raw : Bytes → Reply
  answer : Answer → Reply

abbrev pub M : Type 0 → Type 0
M A = Page → Prog.Prog Call Reply Page A

-- The errors that end a session.
unfoldable pub is_refused : Error → Bool
is_refused e = code_is e "session_expired" || code_is e "authentication_refused"

-- The body of a reply that is parsed, and the bytes of one that is not.
unfoldable pub value_of : Reply → Exit Value
value_of (answer a) = body_of a
value_of (raw b) = err other

unfoldable pub bytes_of : Reply → Exit Bytes
bytes_of (raw b) = ok b
bytes_of (answer (failed e)) = err e
bytes_of (answer (reply _ _)) = err other

unfoldable pub hash_of : Reply → Exit Text
hash_of (answer a) = digest_of a
hash_of (raw b) = err other

unfoldable pub needs_proof : Scope → Error → Bool
needs_proof write e = code_is e "files_write_required"
needs_proof manage e = code_is e "files_manage_required"

-- What is thrown for an authorisation that the server has not confirmed: only some of the errors of
-- the local client are passed on.
unfoldable pub refusal : Option Value → Error → Error
refusal none e = e
refusal (some x) e = if code_is e "pending" then known (as_text x) else e
  where
    known : Option Text → Error
    known none = e
    known (some t) =
        if is_any t ("files_write_disabled" ∷ "files_manage_disabled" ∷ "files_read_disabled" ∷ [])
        then error_of x
        else if is_any t ("invalid_challenge" ∷ [])
        then failure "local_rejected"
        else e

unfoldable pub local_refusal : Reply → Option Value
local_refusal (answer a) = local_error a
local_refusal (raw b) = none

unfoldable pub confirm_proof : Scope → Text → M (Unit {0})
confirm_proof scope id = do _ ← of_exit (value_of (← request (get_challenge scope id))); pure tt

unfoldable pub prove_scope : ℕ → Scope → M (Unit {0})
unfolding refusal local_refusal confirm_proof value_of
prove_scope signal scope = do
  v ← of_exit (value_of (← request (post_challenge scope)))
  (id, ticket) ← of_exit (challenge_of v)
  a ← request (bridge ticket)
  s ← get_state
  guard (not (is_aborted signal s)) (failure "cancelled")
  try_catch (confirm_proof scope id) (λ e. throw (refusal (local_refusal a) e))

unfoldable pub after_scope : ℕ → Scope → Exit Value → M (Unit {0})
unfolding prove_scope needs_proof
after_scope signal scope (ok v) = pure tt
after_scope signal scope (err e) = if needs_proof scope e then prove_scope signal scope else throw e

unfoldable pub authorize_upload : ℕ → Scope → M (Unit {0})
unfolding after_scope value_of
authorize_upload signal scope = do
  a ← request (get_scope scope)
  after_scope signal scope (value_of a)
