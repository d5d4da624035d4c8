-- ===== src/Presence/Tests.antt =====
-- The theorems about the presence page at a session of it.
use mysyncfiles.Prelude.{◌≡◌, refl, true, [], ◌∷◌, codes, Text, text_eq}
use mysyncfiles.Value.{
  Value, obj, prop, str, num, pos, end, get, is_text, is_safe_integer, as_text, truthy, digest_text,
  key_text,
}
use mysyncfiles.Exit.{other, ok}
use mysyncfiles.Http.{Answer, reply, failed, field, optional, is_ok}
use mysyncfiles.Editor.Checks.{challenge_of}
use mysyncfiles.Prog.Serve.{serve}
use mysyncfiles.Prog.Threads.{System, start as starts, settle}
use mysyncfiles.Presence.State.{
  Presence, Page, Call, probe, bridge, post_challenge, look_for, permission, presence_of,
  presence_in,
}
use mysyncfiles.Presence.{verify, checked, issued}
use mysyncfiles.Presence.Reachable.{initial}
use mysyncfiles.Presence.Confirmed.{Confirms, HasRecognised, verify-HasRecognised}

abbrev page : Page
page = initial true 1000000

abbrev challenge : Text
challenge = codes "0123456789abcdef0123456789abcdef0123456789abcdef0123456789abcdef"

abbrev issue : Value
issue = obj (prop "challenge_id" (str challenge) (prop "ticket" (str (codes "t")) end))

abbrev description : Value
description = obj (
    prop "challenge_id" (str challenge) (
      prop "device_id" (num (pos 7)) (
        prop "device_name" (str (codes "pc")) (
          prop "status" (obj (prop "daemon_state" (str (codes "idle")) end)) (
            prop "presence_expires_at" (num (pos 1060))
              (prop "verified_at" (num (pos 1000)) end))))))

-- A server that issues the challenge and describes the device, and a client that has another answer.
unfoldable server : Call → Answer
server (probe endpoint) = reply 401 (obj (prop "error" (str (codes "challenge_required")) end))
server (bridge endpoint ticket) = failed other
server (post_challenge previous) = reply 200 issue
server (look_for id) = reply 200 description
server (permission name) = failed other

-- What the tests compute with.
unfoldable computed : Unit {0}
unfolding server verify checked issued is_ok digest_text as_text field optional get text_eq
    presence_of is_text is_safe_integer truthy presence_in key_text challenge_of
computed = tt

abbrev presence : Presence
presence = presence_in 1000000 challenge (codes "pc") description

server-Confirms : Confirms server 1000000 presence
unfolding computed
server-Confirms = record {
  issue = issue;
  challenge = challenge;
  ticket = codes "t";
  description = description;
  probed = λ _. refl;
  posted = λ _. refl;
  issued_as = refl;
  looked_up = λ _. refl;
  described = refl;
}

verify-HasRecognised_example :
    ((serve server (verify page)).0 ≡ ok tt)
    × HasRecognised server presence (serve server (verify page)).1
verify-HasRecognised_example = verify-HasRecognised server presence page server-Confirms

abbrev State : Type 0
State = System Call Answer Page

-- The last thread goes on with the server's answer.
abbrev play : State → State
play y = elim y.pool [
  | [] ↦ y
  | t ∷ rest ↦
      settle ((t.pending, server t.pending) ∷ t.history) (t.resume (server t.pending) y.state) rest
        y.made
]

abbrev clicked : State
clicked = settle [] (verify page) [] []

abbrev shown : State
shown = play (play (play (play clicked)))

abbrev IsDescription : Text → Value → Type 0
IsDescription id v = v ≡ description
