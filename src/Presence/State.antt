-- ===== src/Presence/State.antt =====
-- The state of the presence page (web/status.js), what it shows of a device, and its timers.
use mysyncfiles.Prelude.{
  ℕ, ◌+◌, ◌-◌, ◌*◌, min, Bool, true, false, ◌&&◌, Option, none, some, List, [], ◌∷◌, Text, String,
  is_any, ltb, if◌then◌else◌,
}
use mysyncfiles.Value.{Value, num, pos, is_safe_integer, as_text, is_text, key_text, truthy}
use mysyncfiles.Exit
use mysyncfiles.Exit.{Error, code, other, Exit, ok, err, check}
use mysyncfiles.Prog
use mysyncfiles.Http.{Answer, failure, field, optional}

-- What an object literal of the page has under a name: one of its own properties, or one that every
-- object inherits, or nothing.
pub data Label : Type 0 where
  own inherited : Text → Label
  missing : Label

unfoldable pub label_of : List String → Text → Label
label_of names key =
    if is_any key names
    then own key
    else if is_any key (
        "constructor" ∷ "__defineGetter__" ∷ "__defineSetter__" ∷ "hasOwnProperty"
        ∷ "__lookupGetter__" ∷ "__lookupSetter__" ∷ "isPrototypeOf" ∷ "propertyIsEnumerable"
        ∷ "toString" ∷ "valueOf" ∷ "__proto__" ∷ "toLocaleString" ∷ [])
    then inherited key
    else missing

-- The rows of the result, as what each is drawn from, with the challenge and the end of what is shown,
-- in milliseconds, when the timer that hides it is to fire; of the timer the state has whether it is set. The times are drawn in the locale, and a falsy one as "Aucune".
pub record Presence : Type 0 where
  pub challenge : Text
  pub device_name : Text
  pub device_id : Value
  pub client_version : Value
  pub api_version : Value
  pub daemon : Label
  pub communication : Label
  pub observed_at : Value
  pub last_authenticated_at : Value
  pub verified_at : Value
  pub expires_at : Value
  pub until : ℕ

-- `told` is one of the texts for the code of an error.
pub data Message : Type 0 where
  welcome searching waiting_access asking_server recognised expired : Message
  cancelled permission_refused local_missing server_missing : Message
  told : Label → Message

-- What the timer of the exchange, or of the lookup, aborts when it fires; `active` aborts the same.
pub data Stage : Type 0 where
  exchange lookup : Stage

-- `previous` is a challenge with its end; `clock` is `Date.now()`. The closure of the one verification
-- that can be under way has the others: `user_cancelled`, whether its stage is "server", and whether
-- its controllers are aborted. `permissions` is `navigator.permissions`.
pub record Page : Type 0 where
  pub shown : Option Presence
  pub previous : Option (Text × ℕ)
  pub expiry_timer : Bool
  pub message : Message
  pub active : Option Stage
  pub disabled : Bool
  pub cancel_hidden : Bool
  pub timer : Option Stage
  pub waiting : Bool
  pub at_server : Bool
  pub user_cancelled : Bool
  pub aborted : Bool
  pub lookup_aborted : Bool
  pub permissions : Bool
  pub clock : ℕ

pub data Call : Type 0 where
  -- the local client's `/v1/status` without a ticket, and with one
  probe : Text → Call
  bridge : Text → Text → Call
  -- `/v1/web/status/challenges` by POST, with the previous challenge, and `…/challenges/<id>`
  post_challenge : Option Text → Call
  look_for : Text → Call
  -- `navigator.permissions.query` of a permission
  permission : String → Call

abbrev pub M : Type 0 → Type 0
M A = Page → Prog.Prog Call Answer Page A

abbrev pub max_presence : ℕ
max_presence = 120000

-- The time that is left of a presence, in milliseconds.
unfoldable pub presence_left : ℕ → Value → ℕ
presence_left now (num (pos n)) = min max_presence (n * 1000 - now)
presence_left now _ = 0

abbrev pub daemon_names : List String
daemon_names = "starting" ∷ "idle" ∷ "syncing" ∷ "error" ∷ []

abbrev pub communication_names : List String
communication_names = "unknown" ∷ "authenticated" ∷ "failed" ∷ []

-- The rows that `showPresence` draws of a value.
unfoldable pub presence_in : ℕ → Text → Text → Value → Presence
unfolding presence_left label_of
presence_in now id name v =
    let status = optional "status" v in
    record {
      challenge = id;
      device_name = name;
      device_id = optional "device_id" v;
      client_version = optional "client_version" status;
      api_version = optional "api_version" status;
      daemon = label_of daemon_names (key_text (optional "daemon_state" status));
      communication = label_of communication_names (key_text (optional "communication" status));
      observed_at = optional "observed_at" status;
      last_authenticated_at = optional "last_authenticated_at" status;
      verified_at = optional "verified_at" v;
      expires_at = optional "presence_expires_at" v;
      until = now + presence_left now (optional "presence_expires_at" v);
    }

-- The tests of `showPresence`, with what it shows.
unfoldable pub presence_of : ℕ → Text → Value → Exit Presence
unfolding presence_left presence_in
presence_of now id v = Exit.◌>>=◌ (field "challenge_id" v) λ i.
    Exit.◌>>=◌ (named (as_text (optional "device_name" v))) λ name.
      Exit.◌>>◌
        (check
          (is_text i id
            && is_safe_integer (optional "device_id" v)
            && truthy (optional "status" v)
            && is_safe_integer (optional "presence_expires_at" v)
            && is_safe_integer (optional "verified_at" v))
          (failure "invalid_response"))
        (Exit.◌>>◌
          (check (ltb 0 (presence_left now (optional "presence_expires_at" v)))
            (failure "presence_expired"))
          (ok (presence_in now id name v)))
  where
    named : Option Text → Exit Text
    named none = err (failure "invalid_response")
    named (some t) = ok t

unfoldable pub set_message : Message → Page → Page
set_message t s = record s { message = t }

unfoldable pub show_presence : Presence → Page → Page
unfolding set_message
show_presence p s = record (set_message recognised s) {
  shown = some p;
  previous = some (p.challenge, p.until);
  expiry_timer = true;
}

unfoldable pub clear_result : Page → Page
clear_result s = record s { shown = none; expiry_timer = false }

-- The timer that `showPresence` sets, when it fires.
unfoldable pub expire : Page → Page
unfolding clear_result set_message
expire s = record (set_message expired (clear_result s)) { previous = none }

-- The previous challenge, while it lasts.
unfoldable pub previous_id : Page → Option Text
previous_id s = elim s.previous [
  | none ↦ none
  | some p ↦ if ltb s.clock p.1 then some p.0 else none
]

-- What the cancel button does to the verification under way, and its timers when they fire.
unfoldable pub abort_stage : Stage → Page → Page
abort_stage exchange s = record s { aborted = true }
abort_stage lookup s = record s { lookup_aborted = true }

unfoldable pub cancel : Page → Page
cancel s = elim s.active [
  | none ↦ s
  | some exchange ↦ record s { user_cancelled = true; aborted = true }
  | some lookup ↦ record s { user_cancelled = true; aborted = true; lookup_aborted = true }
]

unfoldable pub timer_fired : Stage → Page → Page
unfolding abort_stage
timer_fired stage s = record (abort_stage stage s) { timer = none }

unfoldable pub waited : Page → Page
unfolding set_message
waited s = record (set_message waiting_access s) { waiting = false }
