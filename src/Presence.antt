-- ===== src/Presence.antt =====
-- The presence page (web/status.js): `showPresence`, the verification of the device and its messages,
-- and the timers. The delays of the requests are those of the answers.
pub mod State
pub mod Asks
pub mod Shown
pub mod Reachable
pub mod Verified
pub mod Confirmed
mod Tests
use mysyncfiles.Prelude.{
  Bool, true, false, not, ◌||◌, Option, none, some, List, [], ◌∷◌, Text, codes, String, ◌==◌,
  if◌then◌else◌,
}
use mysyncfiles.Value.{Value, get, is_text}
use mysyncfiles.Exit
use mysyncfiles.Exit.{Error, code, other, Exit, ok, err}
use mysyncfiles.Prog.{
  ◌>>=◌, ◌>>◌, pure, throw, get_state, modify, request, of_exit, guard, try_catch, try_finally,
}
use mysyncfiles.Http.{Answer, reply, failed, failure, error_of, is_ok, field, optional}
use mysyncfiles.Editor.Checks.{challenge_of}
use mysyncfiles.Presence.State.{
  Label, own, inherited, missing, label_of, Message, searching, asking_server, cancelled,
  permission_refused, local_missing, server_missing, told, exchange, lookup, Page, probe, bridge,
  post_challenge, look_for, permission, M, presence_of, set_message, show_presence, clear_result,
  previous_id,
}

-- The endpoints of the source.
abbrev pub endpoints : List Text
endpoints = codes "http://127.0.0.1:47831/v1/status" ∷ []

-- What the answer to a probe tells: that the client is there, that something is, or that the request or
-- the reading of its answer has failed, after it was accessible or not.
pub data Probe : Type 0 where
  found seen : Probe
  lost : Bool → Probe

unfoldable pub probe_of : Answer → Probe
probe_of (failed e) = lost false
probe_of (reply status v) = if status == 401 then wanted (get "error" v) else seen
  where
    wanted : Option Value → Probe
    wanted none = lost true
    wanted (some e) = if is_text e (codes "challenge_required") then found else seen

-- After a probe: the endpoint that is found ends the loop, and an abort ends the verification.
unfoldable pub after_probe :
    Text → Bool → (Bool → M (Option Text × Bool)) → Probe → M (Option Text × Bool)
after_probe endpoint accessible others found s = pure (some endpoint, true) s
after_probe endpoint accessible others seen s = others true s
after_probe endpoint accessible others (lost b) s =
    (do guard (not s.aborted) (failure "cancelled"); others (accessible || b)) s

-- The loop over the endpoints: the one that is found, and whether any was accessible.
unfoldable pub probe_each : List Text → Bool → M (Option Text × Bool)
unfolding probe_of after_probe
probe_each [] accessible = pure (none, accessible)
probe_each (endpoint ∷ rest) accessible = do
  a ← request (probe endpoint)
  after_probe endpoint accessible (probe_each rest) (probe_of a)

unfoldable pub endpoint_of : Option Text × Bool → Exit Text
endpoint_of (some endpoint, accessible) = ok endpoint
endpoint_of (none, accessible) =
    err (if accessible then failure "local_unverified" else failure "local_unavailable")

unfoldable pub thrown_by : Value → Exit Value
thrown_by v = Exit.◌>>=◌ (field "error" v) λ e. err (error_of e)

unfoldable pub issued : Answer → Exit Value
unfolding thrown_by
issued (failed e) = err e
issued (reply status v) = if is_ok status then ok v else thrown_by v

-- `localFailed`
unfoldable pub has_failed : Answer → Bool
has_failed (failed e) = true
has_failed (reply status v) = not (is_ok status)

unfoldable pub checked : Bool → Answer → Exit Value
unfolding thrown_by
checked local_failed (failed e) = err e
checked local_failed (reply status v) =
    if status == 202
    then err (if local_failed then failure "verification_failed" else failure "local_unverified")
    else if is_ok status
    then ok v
    else thrown_by v

-- The click begins the exchange, and the lookup follows it.
unfoldable pub start_verify : Page → Page
unfolding clear_result set_message
start_verify s = record (set_message searching (clear_result s)) {
  active = some exchange;
  disabled = true;
  cancel_hidden = false;
  timer = some exchange;
  waiting = true;
  at_server = false;
  user_cancelled = false;
  aborted = false;
  lookup_aborted = false;
}

unfoldable pub ask_server : Page → Page
unfolding set_message
ask_server s = record (set_message asking_server s) {
  waiting = false;
  timer = some exchange;
  at_server = true;
}

unfoldable pub begin_lookup : Page → Page
begin_lookup s = record s { active = some lookup; timer = some lookup; lookup_aborted = false }

-- The last part of the click: the server's word on the challenge.
unfoldable pub look_up : Text → Bool → M (Unit {0})
unfolding begin_lookup checked presence_of show_presence
look_up id local_failed = do
  modify begin_lookup
  w ← of_exit (checked local_failed (← request (look_for id)))
  s ← get_state
  p ← of_exit (presence_of s.clock id w)
  modify (show_presence p)

unfoldable pub exchange_with : Text → M (Unit {0})
unfolding ask_server previous_id issued has_failed look_up
exchange_with endpoint = do
  modify ask_server
  s ← get_state
  v ← of_exit (issued (← request (post_challenge (previous_id s))))
  (id, ticket) ← of_exit (challenge_of v)
  a ← request (bridge endpoint ticket)
  s' ← get_state
  guard (not s'.user_cancelled) (failure "cancelled")
  look_up id (has_failed a)

unfoldable pub verify_body : M (Unit {0})
unfolding probe_each endpoint_of exchange_with
verify_body = do
  answered ← probe_each endpoints false
  endpoint ← of_exit (endpoint_of answered)
  exchange_with endpoint

-- The loop of `permissionDenied`: a permission that is not known is passed over.
unfoldable pub after_query : M Bool → Answer → M Bool
after_query others (failed e) = others
after_query others (reply status v) = pure (is_text (optional "state" v) (codes "denied"))

unfoldable pub ask_permissions : List String → M Bool
unfolding after_query
ask_permissions [] = pure false
ask_permissions (name ∷ names) = do
  a ← request (permission name)
  after_query (ask_permissions names) a

-- `permissionDenied`
unfoldable pub permission_denied : M Bool
unfolding ask_permissions
permission_denied s =
    if s.permissions
    then ask_permissions ("loopback-network" ∷ "local-network-access" ∷ []) s
    else pure false s

abbrev pub text_names : List String
text_names =
    "authentication_refused" ∷ "challenge_expired" ∷ "presence_expired" ∷ "challenge_limit"
    ∷ "local_unverified" ∷ "verification_failed" ∷ "status_busy" ∷ []

-- `texts[error.code] || …`
unfoldable pub label_in : Error → Label
unfolding label_of
label_in (code c) = label_of text_names c
label_in other = missing

unfoldable pub message_for : Bool → Label → Message
message_for at_server (own c) = told (own c)
message_for at_server (inherited c) = told (inherited c)
message_for at_server missing = if at_server then server_missing else local_missing

-- The `catch` block.
unfoldable pub tell_error : Bool → Error → Page → Page
unfolding message_for label_in set_message
tell_error denied e s =
    if denied
    then set_message permission_refused s
    else set_message (message_for s.at_server (label_in e)) s

unfoldable pub fail_verify : Error → M (Unit {0})
unfolding permission_denied tell_error set_message
fail_verify e s =
    if s.user_cancelled
    then modify (set_message cancelled) s
    else if s.at_server
    then modify (tell_error false e) s
    else (do denied ← permission_denied; modify (tell_error denied e)) s

-- The `finally` block.
unfoldable pub end_verify : Page → Page
end_verify s = record s {
  timer = none;
  waiting = false;
  active = none;
  disabled = false;
  cancel_hidden = true;
}

-- The handler of the verify button.
unfoldable pub verify : M (Unit {0})
unfolding start_verify verify_body fail_verify end_verify
verify = do modify start_verify; try_finally (try_catch verify_body fail_verify) (modify end_verify)
