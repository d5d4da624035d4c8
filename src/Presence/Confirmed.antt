-- ===== src/Presence/Confirmed.antt =====
-- A verification alone on the presence page (web/status.js), with a server that confirms the device.
use mysyncfiles.Prelude.{
  codes, some, true, ap, subst, sym, ◌≡◌, refl, false, Bool, Option, Text, text_eq, ℕ,
}
use mysyncfiles.Value.{Value, obj, prop, str, end, get, is_text}
use mysyncfiles.Exit.{ok}
use mysyncfiles.Http.{Answer, reply}
use mysyncfiles.Editor.Checks.{challenge_of}
use mysyncfiles.Prog.{catch_prog}
use mysyncfiles.Prog.Serve.{serve, serve-catch, serve-finally}
use mysyncfiles.Presence.State.{
  recognised, Presence, Page, Call, probe, bridge, post_challenge, look_for, presence_of,
  show_presence, previous_id, set_message,
}
use mysyncfiles.Presence.{
  issued, checked, has_failed, after_probe, probe_each, probe_of, endpoint_of, ask_server,
  begin_lookup, look_up, exchange_with, start_verify, verify_body, fail_verify, end_verify, verify,
}

-- The client answers the probe as it should, the server issues a challenge, and describes the device to a
-- lookup of it at the time `now`.
module _ (env : Call → Answer) where
  pub record Confirms (now : ℕ) (p : Presence) : Type 0 where
    pub issue : Value
    pub challenge : Text
    pub ticket : Text
    pub description : Value
    pub probed :
        (endpoint : Text)
        → env (probe endpoint)
          ≡ reply 401 (obj (prop "error" (str (codes "challenge_required")) end))
    pub posted : (previous : Option Text) → issued (env (post_challenge previous)) ≡ ok issue
    pub issued_as : challenge_of issue ≡ ok (challenge, ticket)
    pub looked_up : (b : Bool) → checked b (env (look_for challenge)) ≡ ok description
    pub described : presence_of now challenge description ≡ ok p

  serve-look_up :
      (p : Presence) (s : Page) (c : Confirms s.clock p) (b : Bool)
      → serve env (look_up c.challenge b s) ≡ (ok tt, show_presence p (begin_lookup s))
  unfolding look_up serve begin_lookup
  serve-look_up p s c b = rw (c.looked_up b, serve) (rw (c.described, serve) refl)

  -- A page that the user has not cancelled.
  abbrev going_on : Page → Page
  going_on s = record s { user_cancelled = false }

  serve-exchange_with :
      (endpoint : Text) (p : Presence) (s : Page)
      → Confirms s.clock p
      → serve env (exchange_with endpoint (going_on s))
        ≡ (ok tt, show_presence p (begin_lookup (ask_server (going_on s))))
  unfolding exchange_with serve ask_server set_message
  serve-exchange_with endpoint p s c =
      rw (c.posted (previous_id (ask_server (going_on s))), serve)
        (rw (c.issued_as, serve)
          (serve-look_up p (ask_server (going_on s)) c
            (has_failed (env (bridge endpoint c.ticket)))))

  serve-verify_body :
      (p : Presence) (s : Page)
      → Confirms s.clock p
      → serve env (verify_body (going_on s))
        ≡ (ok tt, show_presence p (begin_lookup (ask_server (going_on s))))
  unfolding verify_body probe_each probe_of after_probe endpoint_of serve get text_eq is_text
  serve-verify_body p s c =
      rw (c.probed (codes "http://127.0.0.1:47831/v1/status"), serve)
        (serve-exchange_with (codes "http://127.0.0.1:47831/v1/status") p s c)

  -- What the page is left with.
  pub record HasRecognised (p : Presence) (s : Page) : Type 0 where
    pub shown : s.shown ≡ some p
    pub said : s.message ≡ recognised
    pub timed : s.expiry_timer ≡ true
    pub kept : s.previous ≡ some (p.challenge, p.until)
    pub enabled : s.disabled ≡ false

  -- A verification alone, of a client that answers the probe as it should, with a server that issues a
  -- challenge and then describes a device to the lookup of it, shows that device, whatever the client
  -- answers with the ticket, and says so; the timer that hides it is set, the challenge is kept for the
  -- next verification, and the page takes another click.
  pub verify-HasRecognised :
      (p : Presence) (s : Page)
      → Confirms s.clock p
      → ((serve env (verify s)).0 ≡ ok tt) × HasRecognised p (serve env (verify s)).1
  unfolding verify start_verify end_verify show_presence
  verify-HasRecognised p s c =
      let t = start_verify s in
      let u = show_presence p (begin_lookup (ask_server t)) in
      let run : serve env (verify s) ≡ (ok tt, end_verify u) =
        serve-finally env end_verify (catch_prog fail_verify (verify_body t)) tt u
          (serve-catch env fail_verify (verify_body t) tt u (serve-verify_body p t c)) in
      (
        ap (λ x. x.0) run,
        subst (λ x. HasRecognised p x.1) (sym run)
            (record { shown = refl; said = refl; timed = refl; kept = refl; enabled = refl }),
      )
