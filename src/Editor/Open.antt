-- ===== src/Editor/Open.antt =====
-- Opening a file, the authorisations, the retry button and `lock`.
use mysyncfiles.Prelude.{
  ℕ, ◌+◌, Bool, true, false, not, ◌&&◌, ◌||◌, Option, none, some, [], Text, codes, ends_with,
  text_eq, ltb, ◌==◌, if◌then◌else◌,
}
use mysyncfiles.Value.{Value, get, is_text, truthy}
use mysyncfiles.Exit.{Error, other, code_is, Exit, ok, err}
use mysyncfiles.Prog.{
  ◌>>=◌, ◌>>◌, pure, throw, get_state, modify, request, of_exit, guard, when, try_catch,
  try_finally,
}
use mysyncfiles.Http.{Answer, reply, failed, failure, error_of, is_ok, body_of}
use mysyncfiles.Editor.State.{Entry, Draft, Editor, is_some, dirty, content, has_crlf, controls}
use mysyncfiles.Editor.Calls.{
  Scope, edit, run, join_open, hash, get_session, post_challenge, get_challenge, bridge, get_file,
  M,
}
use mysyncfiles.Editor.Checks.{digest_of, source_of, challenge_of}
use mysyncfiles.Editor.Save.{flush}

-- `${prefix}_required`
unfoldable pub needs_challenge : Scope → Error → Bool
needs_challenge edit e = code_is e "files_edit_required"
needs_challenge run e = code_is e "code_run_required"

-- `localError` after the call of the bridge: a reply that is lost, or whose body has no property,
-- leaves it undefined, and so does a falsy `error`.
unfoldable pub local_error : Answer → Option Value
local_error (failed e) = none
local_error (reply status v) = if is_ok status then none else error_in (get "error" v)
  where
    error_in : Option Value → Option Value
    error_in none = none
    error_in (some x) = if truthy x then some x else none

-- What is thrown for an authorisation that the server has not confirmed.
unfoldable pub refusal : Option Value → Error → Error
refusal none e = e
refusal (some x) e =
    if code_is e "pending"
    then (if is_text x (codes "invalid_challenge") then failure "local_rejected" else error_of x)
    else e

-- The server's word on a challenge.
unfoldable pub confirm_challenge : Scope → Text → M (Unit {0})
confirm_challenge scope id = do _ ← of_exit (body_of (← request (get_challenge scope id))); pure tt

-- The part of `authorize` after its first request was refused for want of a proof.
unfoldable pub prove : Scope → M (Unit {0})
unfolding local_error refusal confirm_challenge
prove scope = do
  v ← of_exit (body_of (← request (post_challenge scope)))
  (id, ticket) ← of_exit (challenge_of v)
  a ← request (bridge ticket)
  try_catch (confirm_challenge scope id) (λ e. throw (refusal (local_error a) e))

-- After the first request of `authorize`: done, or a proof is wanted, or it fails.
unfoldable pub after_session : Scope → Exit Value → M (Unit {0})
unfolding prove needs_challenge
after_session scope (ok v) = pure tt
after_session scope (err e) = if needs_challenge scope e then prove scope else throw e

unfoldable pub authorize : Scope → M (Unit {0})
unfolding after_session
authorize scope = do a ← request (get_session scope); after_session scope (body_of a)

-- A version of the file with its content.
pub record Source : Type 0 where
  pub entry : Entry
  pub content : Text

unfoldable pub load_source : M Source
load_source = do
  s ← get_state
  v ← of_exit (body_of (← request (get_file s.path)))
  (revision, text, h) ← of_exit (source_of s.path v)
  sha256 ← of_exit (digest_of (← request (hash text)))
  guard (is_text h sha256) (failure "invalid_response")
  pure (record {
    entry = record { path = s.path; revision = revision; sha256 = sha256 };
    content = text;
  })

-- `lock`, with what it returns.
unfoldable pub lock : Editor → Editor × Bool
unfolding dirty controls
lock s = (controls (if dirty s then kept else dropped), dirty s)
  where
    closed : Editor
    closed = record s {
      generation = s.generation + 1;
      timer = false;
      polling = false;
      aborted = true;
      edit_allowed = false;
      ready = false;
      job = none;
    }

    kept : Editor
    kept = record closed { save_error = some (failure "session_expired") }

    dropped : Editor
    dropped = record closed { entry = none; value = []; saved_text = [] }

unfoldable pub allow_edit : Editor → Editor
allow_edit s = record s { edit_allowed = true }

unfoldable pub begin_open : Editor → Editor
begin_open s = record s { aborted = false; generation = s.generation + 1; opening = true }

unfoldable pub end_open : Editor → Editor
unfolding controls
end_open s = controls (record s { opening = false })

-- What the retry button makes of the server's version, when a save has failed: the revision that is
-- known already, the input's text, the draft that was not confirmed, or a conflict.
unfoldable pub take_remote : Source → Text → Editor → Editor
take_remote remote text s = record s {
  saved_text = text;
  entry = some remote.entry;
  unconfirmed = none;
  save_error = none;
}

unfoldable pub reconcile_draft : Option Draft → Source → Editor → Exit Editor
unfolding take_remote
reconcile_draft none remote s = err (failure "revision_changed")
reconcile_draft (some d) remote s =
    if text_eq remote.content d.code && ltb d.base remote.entry.revision
    then ok (take_remote remote d.text s)
    else err (failure "revision_changed")

unfoldable pub reconcile_entry : Option Entry → Source → Editor → Exit Editor
unfolding reconcile_draft content
reconcile_entry none remote s = err other
reconcile_entry (some e) remote s =
    if remote.entry.revision == e.revision
    then ok (record s { save_error = none })
    else if text_eq remote.content (content s)
    then ok (take_remote remote s.value s)
    else reconcile_draft s.unconfirmed remote s

unfoldable pub reconcile : Source → Editor → Exit Editor
unfolding reconcile_entry
reconcile remote s = reconcile_entry s.entry remote s

unfoldable pub reload : M (Unit {0})
unfolding load_source reconcile
reload = do remote ← load_source; s ← get_state; s' ← of_exit (reconcile remote s); modify (λ _. s')

unfoldable pub confirm_draft : ℕ → M (Unit {0})
unfolding authorize allow_edit reload controls flush
confirm_draft fuel = do
  authorize edit
  modify allow_edit
  s ← get_state
  when (is_some s.save_error) reload
  modify controls
  flush fuel

unfoldable pub set_error : Error → Editor → Editor
set_error e s = record s { save_error = some e }

unfoldable pub grant_edit : M (Unit {0})
unfolding authorize allow_edit
grant_edit = do authorize edit; modify allow_edit

-- What the input's text is after `input.value = text`: CodeMirror parts the text into lines.
module _ (normalise : Text → Text) where
  unfoldable pub adopt : Source → Editor → Editor
  adopt source s = record s {
    entry = some source.entry;
    crlf = has_crlf source.content;
    value = normalise source.content;
    saved_text = normalise source.content;
    save_error = none;
  }

  -- The function that `open` starts. `detect` is the detection of the tools, which follows.
  unfoldable pub adopt_and_detect : ℕ → Source → M (Unit {0}) → M (Unit {0})
  unfolding adopt grant_edit controls
  adopt_and_detect current source detect = do
    modify (adopt source)
    try_catch grant_edit (λ e. pure tt)
    s ← get_state
    when (current == s.generation) (do modify controls; detect)

  unfoldable pub open_body : ℕ → M (Unit {0}) → M (Unit {0})
  unfolding load_source dirty adopt_and_detect
  open_body current detect = do
    s ← get_state
    guard (ends_with s.path ".py" || ends_with s.path ".c") (failure "unsupported_file")
    source ← load_source
    s' ← get_state
    when (current == s'.generation && not (dirty s')) (adopt_and_detect current source detect)

  unfoldable pub open_anew : ℕ → M (Unit {0}) → M (Unit {0})
  unfolding begin_open open_body end_open
  open_anew current detect = do
    modify begin_open
    try_finally (try_catch (open_body current detect) (λ e. pure tt)) (modify end_open)

  unfoldable pub open_file : M (Unit {0}) → M (Unit {0})
  unfolding open_anew
  open_file detect s =
      if s.opening
      then (do _ ← request join_open; pure tt) s
      else if is_some s.entry && not s.aborted
      then pure tt s
      else open_anew (s.generation + 1) detect s

  -- The handler of the retry button.
  unfoldable pub retry_body : ℕ → M (Unit {0}) → M (Unit {0})
  unfolding open_file confirm_draft
  retry_body fuel detect s = if is_some s.entry then confirm_draft fuel s else open_file detect s

  unfoldable pub retry : ℕ → M (Unit {0}) → M (Unit {0})
  unfolding retry_body controls set_error
  retry fuel detect =
      try_finally (try_catch (retry_body fuel detect) (λ e. modify (set_error e))) (modify controls)
