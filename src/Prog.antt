-- ===== src/Prog.antt =====
-- Asynchronous handlers as interaction programs. A handler runs on the state `W` of the page; at an
-- `await` it hands its call to the environment with the state as it stands, and goes on with an
-- answer and with the state as the other handlers have left it. `throw`, `try`/`catch` and
-- `finally` act on the way in which a program ends.
pub mod Sat
pub mod Rules
pub mod Threads
pub mod Stable
pub mod Relied
pub mod Serve
pub mod Plays
use mysyncfiles.Prelude.{Bool, true, false, List, [], ◌∷◌}
use mysyncfiles.Exit.{Error, Exit, ok, err}

module _ (C R W : Type 0) where
  pub data Prog (A : Type 0) : Type 0 where
    done : Exit A → W → Prog A
    call : C → W → (R → W → Prog A) → Prog A

module _ {C R W : Type 0} where
  abbrev pub bind : {A B : Type 0} → (A → W → Prog C R W B) → Prog C R W A → Prog C R W B
  bind f (done (ok a) w) = f a w
  bind f (done (err e) w) = done (err e) w
  bind f (call c w k) = call c w (λ r w'. bind f (k r w'))

  infixl 5 ◌>>=◌ ◌>>◌
  abbrev pub ◌>>=◌ : {A B : Type 0} → (W → Prog C R W A) → (A → W → Prog C R W B) → W → Prog C R W B
  ◌>>=◌ m f w = bind f (m w)

  abbrev pub ◌>>◌ :
      {B : Type 0} → (W → Prog C R W (Unit {0})) → (W → Prog C R W B) → W → Prog C R W B
  ◌>>◌ m n w = bind (λ _. n) (m w)

  abbrev pub pure : {A : Type 0} → A → W → Prog C R W A
  pure a w = done (ok a) w

  abbrev pub throw : {A : Type 0} → Error → W → Prog C R W A
  throw e w = done (err e) w

  abbrev pub get_state : W → Prog C R W W
  get_state w = done (ok w) w

  abbrev pub modify : (W → W) → W → Prog C R W (Unit {0})
  modify f w = done (ok tt) (f w)

  abbrev pub request : C → W → Prog C R W R
  request c w = call c w (λ r w'. done (ok r) w')

  abbrev pub of_exit : {A : Type 0} → Exit A → W → Prog C R W A
  of_exit x w = done x w

  -- `if (!b) throw …`
  abbrev pub guard : Bool → Error → W → Prog C R W (Unit {0})
  guard true e w = done (ok tt) w
  guard false e w = done (err e) w

  -- `if (b) { … }`
  abbrev pub when : Bool → (W → Prog C R W (Unit {0})) → W → Prog C R W (Unit {0})
  when true m w = m w
  when false m w = done (ok tt) w

  abbrev pub catch_prog : {A : Type 0} → (Error → W → Prog C R W A) → Prog C R W A → Prog C R W A
  catch_prog h (done (ok a) w) = done (ok a) w
  catch_prog h (done (err e) w) = h e w
  catch_prog h (call c w k) = call c w (λ r w'. catch_prog h (k r w'))

  abbrev pub try_catch :
      {A : Type 0} → (W → Prog C R W A) → (Error → W → Prog C R W A) → W → Prog C R W A
  try_catch m h w = catch_prog h (m w)

  -- The way in which the body ended, kept over a `finally` block that ends well.
  abbrev pub end_as : {A : Type 0} → Exit A → Unit {0} → W → Prog C R W A
  end_as x _ w = done x w

  abbrev pub finally_prog : {A : Type 0} → (W → Prog C R W (Unit {0})) → Prog C R W A → Prog C R W A
  finally_prog m (done x w) = bind (end_as x) (m w)
  finally_prog m (call c w k) = call c w (λ r w'. finally_prog m (k r w'))

  abbrev pub try_finally :
      {A : Type 0} → (W → Prog C R W A) → (W → Prog C R W (Unit {0})) → W → Prog C R W A
  try_finally m after w = finally_prog after (m w)

-- A run against a script: each answer with what the other handlers do to the state meanwhile.
-- `waiting` is a program whose script has run out.
pub data Outcome (A W : Type 0) : Type 0 where
  ended : Exit A → W → Outcome A W
  waiting : W → Outcome A W

module _ {C R W A : Type 0} where
  unfoldable pub run : Prog C R W A → List (R × (W → W)) → Outcome A W × List C
  run (done x w) script = (ended x w, [])
  run (call c w k) [] = (waiting w, c ∷ [])
  run (call c w k) ((r, meanwhile) ∷ script) =
      let (o, cs) = run (k r (meanwhile w)) script in (o, c ∷ cs)
