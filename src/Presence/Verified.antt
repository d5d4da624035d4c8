-- ===== src/Presence/Verified.antt =====
-- How a verification alone on the presence page ends (web/status.js).
use mysyncfiles.Prelude.{
  String, ◌&&◌, not, ◌∷◌, ◌≢◌, codes, ◌≡◌, true, false, ◌⊎◌, Bool, Option, none, some, List, [],
  Text, ℕ,
}
use mysyncfiles.Value.{Value, is_text}
use mysyncfiles.Exit.{Error, Exit, ok, err}
use mysyncfiles.Http.{Answer, reply, failed, optional}
use mysyncfiles.Prog.Serve.{serve}
use mysyncfiles.Presence.State.{
  Presence, Message, recognised, cancelled, permission_refused, local_missing, server_missing, told,
  Page, Call, missing, look_for, permission, presence_of,
}
use mysyncfiles.Presence.{label_in, message_for, checked, start_verify, verify_body}
use mysyncfiles.Presence.Asks

-- The page takes another click, and no timer of the verification is left.
pub record IsFree (s : Page) : Type 0 where
  pub enabled : s.disabled ≡ false
  pub hidden : s.cancel_hidden ≡ true
  pub inactive : s.active ≡ none
  pub untimed : s.timer ≡ none
  pub unwatched : s.waiting ≡ false

module _ (env : Call → Answer) where
  -- What is shown is what the server's answer to a lookup says, at that time.
  pub record IsAnswered (p : Presence) (now : ℕ) : Type 0 where
    pub challenge : Text
    pub local_failed : Bool
    pub value : Value
    pub accepted : checked local_failed (env (look_for challenge)) ≡ ok value
    pub described : presence_of now challenge value ≡ ok p

  pub record HasShown (s : Page) : Type 0 where
    pub presence : Presence
    pub shown : s.shown ≡ some presence
    pub answered : IsAnswered presence s.clock
    pub said : s.message ≡ recognised

  -- Whether the first of the permissions that is known is denied.
  abbrev pub denies : List String → Bool
  denies [] = false
  denies (name ∷ names) =
      let rest = denies names in
      elim (env (permission name)) [
        | failed e ↦ rest
        | reply status v ↦ is_text (optional "state" v) (codes "denied")
      ]

  -- Whether the browser denies the access to the local client, where it can be asked.
  abbrev pub refuses : Bool → Bool
  refuses permissions = permissions && denies ("loopback-network" ∷ "local-network-access" ∷ [])

  -- The message for an error: cancelled if the user has cancelled; before the server was asked, that
  -- access is refused if it is; the text for the error, if it has one; and otherwise that the server,
  -- or before it was asked the local client, does not answer.
  abbrev pub IsReason : Error → Bool → Bool → Bool → Message → Type 0
  IsReason e stopped asked refused cancelled = stopped ≡ true
  IsReason e stopped asked refused permission_refused =
      (stopped ≡ false) × (asked ≡ false) × (refused ≡ true)
  IsReason e stopped asked refused (told label) =
      (stopped ≡ false)
      × ((not asked && refused) ≡ false)
      × (label_in e ≡ label)
      × (label ≢ missing)
  IsReason e stopped asked refused server_missing =
      (stopped ≡ false) × (asked ≡ true) × (label_in e ≡ missing)
  IsReason e stopped asked refused local_missing =
      (stopped ≡ false) × (asked ≡ false) × (refused ≡ false) × (label_in e ≡ missing)
  IsReason e stopped asked refused _ = ⊥

  abbrev pub Explains : Error → Page → Message → Type 0
  Explains e s m = IsReason e s.user_cancelled s.at_server (refuses s.permissions) m

  -- The device is shown with its message, or nothing is, with the message for the error with which the
  -- verification from the page `s` has ended.
  abbrev pub IsTold : Page → Page → Type 0
  IsTold s t =
      HasShown t
      ⊎ ((t.shown ≡ none)
          × (e : Error) × ((serve env (verify_body (start_verify s))).0 ≡ err e)
          × Explains e t t.message)

  abbrev Answers : Call → Answer → Type 0
  Answers c a = a ≡ env c

  abbrev Hidden : Option Presence → Bool → Option (Text × ℕ) → Type 0
  Hidden shown timer previous = shown ≡ none

  abbrev Ends : List (Call × Answer) → Exit (Unit {0}) → Page → Type 0
  Ends h (ok u) w = HasShown w
  Ends h (err e) w = w.shown ≡ none

  -- The message that the `catch` block chooses.
  reason_of : Error → Bool → Bool → Bool → Message
  reason_of e true asked refused = cancelled
  reason_of e false true refused = message_for true (label_in e)
  reason_of e false false true = permission_refused
  reason_of e false false false = message_for false (label_in e)
