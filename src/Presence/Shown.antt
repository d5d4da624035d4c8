-- ===== src/Presence/Shown.antt =====
-- What the presence page shows of a device, and on whose word.
use mysyncfiles.Prelude.{
  ℕ, ◌+◌, ◌*◌, ◌≡◌, ◌≤◌, ◌<◌, refl, subst, sym, true, Bool, Option, none, some, List, Text, arith,
}
use mysyncfiles.Value.{Value, num, pos, as_text, is_text}
use mysyncfiles.Exit.{ok}
use mysyncfiles.Prog.{Prog, catch_prog}
use mysyncfiles.Prog.Rules
use mysyncfiles.Http.{Answer, field, optional}
use mysyncfiles.Presence.State.{
  Presence, Page, Call, look_for, presence_left, presence_in, presence_of, show_presence,
  max_presence,
}
use mysyncfiles.Presence.{
  checked, begin_lookup, look_up, start_verify, fail_verify, verify_body, end_verify, verify,
}
use mysyncfiles.Presence.Asks

-- The seconds at which the server says that a presence ends.
unfoldable pub end_of : Value → ℕ
end_of (num (pos n)) = n
end_of _ = 0

-- What is shown of a presence that a value describes, from `now` on.
pub record IsPresence (now : ℕ) (v : Value) (p : Presence) : Type 0 where
  pub same_challenge : is_text (optional "challenge_id" v) p.challenge ≡ true
  pub name : as_text (optional "device_name" v) ≡ some p.device_name
  pub some_time : now < p.until
  pub two_minutes : p.until ≤ now + max_presence
  pub in_time : p.until ≤ end_of (optional "presence_expires_at" v) * 1000

presence_left-in_time :
    (now : ℕ) (e : Value)
    → 0 < presence_left now e
    → (presence_left now e ≤ max_presence) × (now + presence_left now e ≤ end_of e * 1000)
unfolding presence_left end_of
presence_left-in_time now e h = ground arith

presence_of-IsPresence :
    (now : ℕ) (id : Text) (v : Value) (p : Presence)
    → presence_of now id v ≡ ok p
    → IsPresence now v p × (p.challenge ≡ id)
unfolding presence_of presence_in field optional presence_left end_of
presence_of-IsPresence now id v p h = ground arith

module _ (Confirmed : Text → Value → Type 0) where
  -- A value that the server's lookup of a challenge answers with success is confirmed.
  abbrev pub Confirms : Call → Answer → Type 0
  Confirms (look_for id) a = (b : Bool) (v : Value) → checked b a ≡ ok v → Confirmed id v
  Confirms _ a = Unit

  pub record IsRecognised (p : Presence) : Type 0 where
    pub answered : Value
    pub confirmed : Confirmed p.challenge answered
    pub shown_at : ℕ
    pub shown : IsPresence shown_at answered p

  -- What is shown is recognised, is hidden by a timer that is set, and is the challenge that is kept for
  -- the next verification, until the same end.
  abbrev pub AreRecognised : Option Presence → Bool → Option (Text × ℕ) → Type 0
  AreRecognised none timer previous = Unit
  AreRecognised (some p) timer previous =
      IsRecognised p × (timer ≡ true) × (previous ≡ some (p.challenge, p.until))

  abbrev pub ShowsRecognised : Page → Type 0
  ShowsRecognised s = AreRecognised s.shown s.expiry_timer s.previous

  abbrev pub Kept : {A : Type 0} → List (Call × Answer) → Prog Call Answer Page A → Type 0
  Kept = Asks.Kept Confirms AreRecognised

  look_up-Kept :
      (id : Text) (b : Bool) (h : List (Call × Answer)) (s : Page)
      → ShowsRecognised s
      → Kept h (look_up id b s)
  unfolding look_up show_presence begin_lookup
  look_up-Kept id b h s i = (
    (i, tt),
    λ a s1 genuine i1. Rules.of_exit-Leaves _ _ _ _ _ s1 i1 (checked b a) _ λ v said.
        Rules.of_exit-Leaves _ _ _ _ _ s1 i1 (presence_of s1.clock id v) _ λ p found.
          (let (is, same) = presence_of-IsPresence s1.clock id v p found in
            (
              (
                record {
                  answered = v;
                  confirmed = subst (λ x. Confirmed x v) (sym same) (genuine b v said);
                  shown_at = s1.clock;
                  shown = is;
                },
                refl,
                refl,
              ),
              tt,
            )),
  )

  -- The click that verifies the device keeps the page such that what it shows is a device that the
  -- server has confirmed for the challenge it names, until at most two minutes after it was shown, and
  -- not after the server's end of the presence; nothing that the local client answers is shown.
  pub verify-Kept : (h : List (Call × Answer)) (s : Page) → ShowsRecognised s → Kept h (verify s)
  unfolding verify start_verify end_verify
  verify-Kept h s i =
      let body = catch_prog fail_verify (verify_body (start_verify s)) in
      Rules.finally-Kept Confirms ShowsRecognised (Asks.Sends Confirms AreRecognised) end_verify
        body h
        (Rules.catch-Kept Confirms ShowsRecognised (Asks.Sends Confirms AreRecognised) fail_verify
          (verify_body (start_verify s)) h
          (Asks.verify_body-Ensures Confirms AreRecognised _ (λ h1 e w j. j)
            (λ id b h1 w j. look_up-Kept id b h1 w j) h (start_verify s) tt)
          (λ h1 e w j. Asks.fail_verify-Kept Confirms AreRecognised e h1 w j))
        (λ w j. j)
