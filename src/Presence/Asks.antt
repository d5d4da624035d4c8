-- ===== src/Presence/Asks.antt =====
-- The parts of the verification that only ask (web/status.js): what the page shows stays as it was up to
-- the lookup, whose end is that of the verification.
use mysyncfiles.Prelude.{
  ℕ, ◌≡◌, refl, if-either, Bool, true, false, not, ◌||◌, Option, List, [], ◌∷◌, Text, String,
}
use mysyncfiles.Exit.{Error, Exit, ok, err}
use mysyncfiles.Prog.{Prog, done, bind, guard, modify}
use mysyncfiles.Prog.Sat.{Sat, Sat-bind}
use mysyncfiles.Prog.Rules
use mysyncfiles.Http.{Answer, reply, failed}
use mysyncfiles.Editor.Checks.{challenge_of}
use mysyncfiles.Presence.State.{Presence, Page, Call, M}
use mysyncfiles.Presence.{
  Probe, after_probe, after_query, probe_of, found, seen, lost, probe_each, endpoint_of, issued,
  has_failed, ask_server, look_up, exchange_with, verify_body, endpoints, ask_permissions,
  permission_denied, tell_error, fail_verify,
}

-- `J` is what is known of what is shown, of its timer, and of the previous challenge.
module _ (E : Call → Answer → Type 0)
    (J : Option Presence → Bool → Option (Text × ℕ) → Type 0) where
  abbrev pub Inv : Page → Type 0
  Inv s = J s.shown s.expiry_timer s.previous

  abbrev pub Sends : Call → Page → Type 0
  Sends _ _ = Unit

  abbrev pub Kept : {A : Type 0} → List (Call × Answer) → Prog Call Answer Page A → Type 0
  Kept = Rules.Kept E Inv Sends

  abbrev pub Ensures :
      {A : Type 0}
      → (List (Call × Answer) → Exit A → Page → Type 0)
      → List (Call × Answer)
      → Prog Call Answer Page A
      → Type 0
  Ensures = Sat E Inv (λ _ c w. Inv w × Sends c w)

  after_probe-Kept :
      (endpoint : Text) (accessible : Bool) (others : Bool → M (Option Text × Bool)) (p : Probe)
      (h : List (Call × Answer)) (s : Page)
      → Inv s
      → ((b : Bool) → Kept h (others b s))
      → Kept h (after_probe endpoint accessible others p s)
  unfolding after_probe
  after_probe-Kept endpoint accessible others found h s i k = (i, tt)
  after_probe-Kept endpoint accessible others seen h s i k = k true
  after_probe-Kept endpoint accessible others (lost b) h s i k =
      Rules.guard-Leaves _ _ _ _ _ s i (not s.aborted) _ _ (λ _. k (accessible || b))

  probe_each-Kept :
      (rest : List Text) (accessible : Bool) (h : List (Call × Answer)) (s : Page)
      → Inv s
      → Kept h (probe_each rest accessible s)
  unfolding probe_each
  probe_each-Kept [] accessible h s i = (i, tt)
  probe_each-Kept (endpoint ∷ rest) accessible h s i = (
    (i, tt),
    λ a s1 _ i1.
        after_probe-Kept endpoint accessible (probe_each rest) (probe_of a) _ s1 i1
          (λ b. probe_each-Kept rest b _ s1 i1),
  )

  -- The question for permissions has an answer, and throws nothing.
  abbrev pub Decides : List (Call × Answer) → Exit Bool → Page → Type 0
  Decides h (ok b) w = Inv w
  Decides h (err e) w = ⊥

  after_query-Decides :
      (others : M Bool) (a : Answer) (h : List (Call × Answer)) (s : Page)
      → Inv s
      → Ensures Decides h (others s)
      → Ensures Decides h (after_query others a s)
  unfolding after_query
  after_query-Decides others (failed e) h s i k = k
  after_query-Decides others (reply status v) h s i k = i

  ask_permissions-Decides :
      (names : List String) (h : List (Call × Answer)) (s : Page)
      → Inv s
      → Ensures Decides h (ask_permissions names s)
  unfolding ask_permissions
  ask_permissions-Decides [] h s i = i
  ask_permissions-Decides (name ∷ names) h s i = (
    (i, tt),
    λ a s1 _ i1.
        after_query-Decides (ask_permissions names) a _ s1 i1
          (ask_permissions-Decides names _ s1 i1),
  )

  pub permission_denied-Decides :
      (h : List (Call × Answer)) (s : Page) → Inv s → Ensures Decides h (permission_denied s)
  unfolding permission_denied
  permission_denied-Decides h s i =
      if-either (Ensures Decides h) s.permissions _ _
        (λ _. ask_permissions-Decides ("loopback-network" ∷ "local-network-access" ∷ []) h s i)
        (λ _. i)

  -- A verification that is lost leaves `Q` of its error, and the lookup leaves `Q` of its end.
  module _ (Q : List (Call × Answer) → Exit (Unit {0}) → Page → Type 0)
      (fails : (h : List (Call × Answer)) (e : Error) (w : Page) → Inv w → Q h (err e) w)
      (looks : (id : Text) (b : Bool) (h : List (Call × Answer)) (w : Page)
        → Inv w
        → Ensures Q h (look_up id b w)) where
    guard-Ensures :
        (h : List (Call × Answer)) (w : Page) (b : Bool) (e : Error) (f : Unit {0} → M (Unit {0}))
        → Inv w
        → (b ≡ true → Ensures Q h (f tt w))
        → Ensures Q h (bind f (guard b e w))
    guard-Ensures h w true e f i k = k refl
    guard-Ensures h w false e f i k = fails h e w i

    of_exit-Ensures :
        {B : Type 0} (h : List (Call × Answer)) (w : Page) (x : Exit B) (f : B → M (Unit {0}))
        → Inv w
        → ((b : B) → Ensures Q h (f b w))
        → Ensures Q h (bind f (done x w))
    of_exit-Ensures h w (ok b) f i k = k b
    of_exit-Ensures h w (err e) f i k = fails h e w i

    exchange_with-Ensures :
        (endpoint : Text) (h : List (Call × Answer)) (s : Page)
        → Inv s
        → Ensures Q h (exchange_with endpoint s)
    unfolding exchange_with ask_server
    exchange_with-Ensures endpoint h s i = (
      (i, tt),
      λ b s1 _ i1. of_exit-Ensures _ s1 (issued b) _ i1 λ v.
          of_exit-Ensures _ s1 (challenge_of v) _ i1 λ c. (
            (i1, tt),
            λ l s2 _ i2.
                guard-Ensures _ s2 (not s2.user_cancelled) _ _ i2
                  (λ _. looks c.0 (has_failed l) _ s2 i2),
          ),
    )

    pub verify_body-Ensures :
        (h : List (Call × Answer)) (s : Page) → Inv s → Ensures Q h (verify_body s)
    unfolding verify_body
    verify_body-Ensures h s i =
        Sat-bind E Inv (λ _ c w. Inv w × Sends c w) _ Q _ (probe_each endpoints false s) h
          (probe_each-Kept endpoints false h s i)
          (λ h1 answered w j.
            of_exit-Ensures h1 w (endpoint_of answered) _ j.0
              (λ endpoint. exchange_with-Ensures endpoint h1 w j.0))
          (λ h1 e w j. fails h1 e w j)

  tell_error-Inv : (denied : Bool) (e : Error) (s : Page) → Inv s → Inv (tell_error denied e s)
  unfolding tell_error
  tell_error-Inv true e s i = i
  tell_error-Inv false e s i = i

  pub fail_verify-Kept :
      (e : Error) (h : List (Call × Answer)) (s : Page) → Inv s → Kept h (fail_verify e s)
  unfolding fail_verify
  fail_verify-Kept e h s i =
      Rules.if-Kept E Inv Sends s.user_cancelled _ _ h (λ _. (i, tt))
        (λ _.
          Rules.if-Kept E Inv Sends s.at_server _ _ h (λ _. (tell_error-Inv false e s i, tt))
            (λ _.
              Sat-bind E Inv (λ _ c w. Inv w × Sends c w) Decides
                (Rules.Ends E Inv Sends (λ _ _. Unit)) (λ denied. modify (tell_error denied e))
                (permission_denied s) h (permission_denied-Decides h s i)
                (λ h1 denied s1 i1. (tell_error-Inv denied e s1 i1, tt))
                (λ h1 x s1 bad. absurd bad)))
