-- ===== src/Files/Entrances.antt =====
-- The verification and the logout of the files page, and its invariant.
use mysyncfiles.Prelude.{
  ℕ, Bool, true, false, not, ◌*◌, Option, none, some, List, [], ◌∷◌, Text, codes, any, ◌==◌,
  if-either, leb, if◌then◌else◌,
}
use mysyncfiles.Exit.{Error}
use mysyncfiles.Prog.{pure, modify, try_catch}
use mysyncfiles.Prog.Stable
use mysyncfiles.Files.State.{Session, Page, is_some, lock}
use mysyncfiles.Files.Calls.{M, value_of}
use mysyncfiles.Files.Browse.{on_shown}
use mysyncfiles.Files.Access.{
  set_access, is_denied, denied_in, denied, ask_access, send_log_out, show_failure, screen_of,
  tell_failure, tell_cancelled, fail_access, end_verify, begin_verify, verify_with, verify,
  log_out_asked, log_out_failed, logout, became_visible,
}
use mysyncfiles.Files.Fits.{
  Server, Inv, Rel_refl, Rel_fresh, Safe, After, same-After, lock-After, bind-Safe, catch-Safe,
  try-Safe, earlier-Safe,
}
use mysyncfiles.Files.Restores.{set_access-After}
use mysyncfiles.Files.Accesses.{ask_access-Safe}

module _ (Served : Server) where
  denied_in-Safe : (names : List Text) (s : Page) → Inv Served s → Safe Served s (denied_in names s)
  unfolding denied_in
  denied_in-Safe [] s i = (i, Rel_refl s, tt)
  denied_in-Safe (name ∷ names) s i = (
    i,
    Rel_refl s,
    tt,
    λ r t _ j _.
        if-either (λ m. Safe Served t (m t)) (is_denied (value_of r)) (pure true) (denied_in names)
          (λ _. (j, Rel_refl t, tt)) (λ _. denied_in-Safe names t j),
  )

  denied-Safe : (known : Bool) (s : Page) → Inv Served s → Safe Served s (denied known s)
  unfolding denied
  denied-Safe known s i =
      if-either (λ m. Safe Served s (m s)) known _ (pure false)
        (λ _. denied_in-Safe (codes "loopback-network" ∷ codes "local-network-access" ∷ []) s i)
        (λ _. (i, Rel_refl s, tt))

  send_log_out-Safe : (s : Page) → Inv Served s → Safe Served s (send_log_out s)
  unfolding send_log_out
  send_log_out-Safe s i = (
    i,
    Rel_refl s,
    tt,
    λ r t _ j _.
        Stable.of_exit-Ensures _ _ _ _ _ t t j (Rel_refl t) (value_of r) _
          λ _ _. same-After Served t j,
  )

  tell_failure-Safe :
      (known : Bool) (e : Error) (s : Page) → Inv Served s → Safe Served s (tell_failure known e s)
  unfolding tell_failure show_failure
  tell_failure-Safe known e s i =
      let tell : Bool → M (Unit {0}) =
        λ refused. modify (show_failure e (not s.at_server) refused) in
      bind-Safe Served tell s ((if s.at_server then pure false else denied known) s)
        (if-either (λ m. Safe Served s (m s)) s.at_server (pure false) (denied known)
          (λ _. (i, Rel_refl s, tt)) (λ _. denied-Safe known s i))
        (λ refused w j _.
          let screen = screen_of (not s.at_server) refused e in
          set_access-After Served screen.0 screen.1 w j)

  tell_cancelled-Safe : (s : Page) → Inv Served s → Safe Served s (tell_cancelled s)
  unfolding tell_cancelled on_shown
  tell_cancelled-Safe s i =
      let t = on_shown (set_access (codes "initial") (codes "Vérification annulée.")) s in
      earlier-Safe Served s t (try_catch send_log_out (λ e. pure tt) t) (Rel_refl s) (
        catch-Safe Served (λ e. pure tt) t (send_log_out t)
          (send_log_out-Safe t
            (set_access-After Served (codes "initial") (codes "Vérification annulée.") s i).0)
          (λ e w j _. same-After Served w j))

  fail_access-Safe :
      (known : Bool) (signal current : ℕ) (e : Error) (s : Page)
      → Inv Served s
      → Safe Served s (fail_access known signal current e s)
  unfolding fail_access
  fail_access-Safe known signal current e s i =
      Stable.when-Safe _ _ _ _ s s (current == s.epoch)
        (if any (λ i. i == signal) s.cancelled then tell_cancelled else tell_failure known e) i
        (Rel_refl s)
        (λ _.
          if-either (λ m. Safe Served s (m s)) (any (λ i. i == signal) s.cancelled) tell_cancelled
            (tell_failure known e) (λ _. tell_cancelled-Safe s i)
            (λ _. tell_failure-Safe known e s i))

  verified-After :
      (o : Option ℕ) (id : ℕ) (s : Page)
      → Inv Served s
      → After Served s
          (elim o [ none ↦ s | some i ↦ if i == id then record s { verification = none } else s ])
  verified-After none id s i = same-After Served s i
  verified-After (some n) id s i =
      if-either (After Served s) (n == id) (record s { verification = none }) s
        (λ _. (i, Rel_refl s, tt)) (λ _. same-After Served s i)

  end_verify-After : (id : ℕ) (s : Page) → Inv Served s → After Served s (end_verify id s)
  unfolding end_verify
  end_verify-After id s i = verified-After s.verification id s i

  verify_with-Safe :
      (known : Bool) (now : ℕ) (s : Page) → Inv Served s → Safe Served s (verify_with known now s)
  unfolding verify_with begin_verify on_shown set_access
  verify_with-Safe known now s i =
      let t = begin_verify s in
      try-Safe Served (fail_access known s.fresh s.epoch) (end_verify s.fresh) s t
        (ask_access now s.fresh s.epoch t) (Rel_fresh s)
        (ask_access-Safe Served now s.fresh s.epoch t
          (set_access-After Served s.shown.access_state (codes "Vérification en cours…") s i).0)
        (λ e w j _. fail_access-Safe known s.fresh s.epoch e w j)
        (λ w j. end_verify-After s.fresh w j)

  pub verify-Safe :
      (known : Bool) (now : ℕ) (s : Page) → Inv Served s → Safe Served s (verify known now s)
  unfolding verify
  verify-Safe known now s i =
      if-either (Safe Served s) (is_some s.verification) (pure tt s) (verify_with known now s)
        (λ _. same-After Served s i) (λ _. verify_with-Safe known now s i)

  log_out_failed-After : (s : Page) → Inv Served s → After Served s (log_out_failed s)
  unfolding log_out_failed
  log_out_failed-After s i = set_access-After Served (codes "initial") _ s i

  log_out_asked-Safe : (s : Page) → Inv Served s → Safe Served s (log_out_asked s)
  unfolding log_out_asked
  log_out_asked-Safe s i =
      bind-Safe Served _ s (send_log_out s) (send_log_out-Safe s i)
        (λ _ t j _. set_access-After Served (codes "initial") (codes "Vous êtes déconnecté.") t j)

  pub logout-Safe : (s : Page) → Inv Served s → Safe Served s (logout s)
  unfolding logout
  logout-Safe s i =
      let a = lock-After Served (codes "initial") (codes "Déconnexion en cours…") s i in
      let t = lock (codes "initial") (codes "Déconnexion en cours…") s in
      earlier-Safe Served s t (try_catch log_out_asked (λ e. modify log_out_failed) t) a.1 (
        catch-Safe Served (λ e. modify log_out_failed) t (log_out_asked t)
          (log_out_asked-Safe t a.0) (λ e w j _. log_out_failed-After w j))

  seen-After :
      (o : Option Session) (now : ℕ) (s : Page)
      → Inv Served s
      → After Served s (elim o [
        | none ↦ s
        | some session ↦
            if leb (session.expires_at * 1000) now then lock (codes "expired") [] s else s
      ])
  seen-After none now s i = same-After Served s i
  seen-After (some session) now s i =
      if-either (After Served s) (leb (session.expires_at * 1000) now) (lock (codes "expired") [] s)
        s (λ _. lock-After Served (codes "expired") [] s i) (λ _. same-After Served s i)

  pub became_visible-After :
      (now : ℕ) (s : Page) → Inv Served s → After Served s (became_visible now s)
  unfolding became_visible
  became_visible-After now s i = seen-After s.shown.session now s i
