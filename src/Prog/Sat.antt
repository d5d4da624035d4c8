-- ===== src/Prog/Sat.antt =====
-- What a program guarantees whatever the environment answers.
use mysyncfiles.Prelude.{List, ◌∷◌}
use mysyncfiles.Exit.{Error, Exit, ok, err}
use mysyncfiles.Prog.{Prog, done, call, bind, catch_prog, finally_prog, end_as}

-- `E c r` is what is assumed of an answer `r` to the call `c`, and `I w` what is assumed of the state
-- in which the other handlers leave the page. `G h c w` is guaranteed of each call `c`, made in the
-- state `w` after the calls `h` (the latest first, each with its answer), and `Q h x w` of the end.
module _ {C R W : Type 0} (E : C → R → Type 0) (I : W → Type 0)
    (G : List (C × R) → C → W → Type 0) where
  abbrev pub Sat :
      {A : Type 0} → (List (C × R) → Exit A → W → Type 0) → List (C × R) → Prog C R W A → Type 0
  Sat Q h (done x w) = Q h x w
  Sat Q h (call c w k) = G h c w × ((r : R) (w' : W) → E c r → I w' → Sat Q ((c, r) ∷ h) (k r w'))

  pub Sat-weaken :
      {A : Type 0} (Q Q' : List (C × R) → Exit A → W → Type 0)
      → ((h : List (C × R)) (x : Exit A) (w : W) → Q h x w → Q' h x w)
      → (p : Prog C R W A) (h : List (C × R)) → Sat Q h p
      → Sat Q' h p
  Sat-weaken Q Q' imp (done x w) h s = imp h x w s
  Sat-weaken Q Q' imp (call c w k) h s =
      (s.0, λ r w' e i. Sat-weaken Q Q' imp (k r w') ((c, r) ∷ h) (s.1 r w' e i))

  -- The rules for a sequence, for `catch` and for `finally`.
  pub Sat-bind :
      {A B : Type 0} (Q' : List (C × R) → Exit B → W → Type 0)
      (Q : List (C × R) → Exit A → W → Type 0) (f : B → W → Prog C R W A) (p : Prog C R W B)
      (h : List (C × R))
      → Sat Q' h p
      → ((h : List (C × R)) (b : B) (w : W) → Q' h (ok b) w → Sat Q h (f b w))
      → ((h : List (C × R)) (e : Error) (w : W) → Q' h (err e) w → Q h (err e) w)
      → Sat Q h (bind f p)
  Sat-bind Q' Q f (done (ok b) w) h s k l = k h b w s
  Sat-bind Q' Q f (done (err e) w) h s k l = l h e w s
  Sat-bind Q' Q f (call c w p) h s k l =
      (s.0, λ r w' e i. Sat-bind Q' Q f (p r w') ((c, r) ∷ h) (s.1 r w' e i) k l)

  pub Sat-catch :
      {A : Type 0} (Q' Q : List (C × R) → Exit A → W → Type 0) (f : Error → W → Prog C R W A)
      (p : Prog C R W A) (h : List (C × R))
      → Sat Q' h p
      → ((h : List (C × R)) (a : A) (w : W) → Q' h (ok a) w → Q h (ok a) w)
      → ((h : List (C × R)) (e : Error) (w : W) → Q' h (err e) w → Sat Q h (f e w))
      → Sat Q h (catch_prog f p)
  Sat-catch Q' Q f (done (ok a) w) h s k l = k h a w s
  Sat-catch Q' Q f (done (err e) w) h s k l = l h e w s
  Sat-catch Q' Q f (call c w p) h s k l =
      (s.0, λ r w' e i. Sat-catch Q' Q f (p r w') ((c, r) ∷ h) (s.1 r w' e i) k l)

  pub Sat-finally :
      {A : Type 0} (Q' Q : List (C × R) → Exit A → W → Type 0) (m : W → Prog C R W (Unit {0}))
      (p : Prog C R W A) (h : List (C × R))
      → Sat Q' h p
      → ((h : List (C × R)) (x : Exit A) (w : W) → Q' h x w → Sat Q h (bind (end_as x) (m w)))
      → Sat Q h (finally_prog m p)
  Sat-finally Q' Q m (done x w) h s k = k h x w s
  Sat-finally Q' Q m (call c w p) h s k =
      (s.0, λ r w' e i. Sat-finally Q' Q m (p r w') ((c, r) ∷ h) (s.1 r w' e i) k)
