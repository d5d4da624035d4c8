-- ===== src/Prog/Stable.antt =====
-- Handlers that rely on one another: a relation `Rel` holds between any two states of which one comes
-- before the other, each handler keeps to it between its calls, and relies on it across them.
use mysyncfiles.Prelude.{Bool, true, false, ◌≡◌, refl, if◌then◌else◌}
use mysyncfiles.Exit.{Error, Exit, ok, err}
use mysyncfiles.Prog.{Prog, done, call, bind, catch_prog, finally_prog, end_as, modify, guard, when}

module _ {C R W : Type 0} (E : C → R → Type 0) (Inv : W → Type 0) (Rel : W → W → Type 0)
    (Sends : C → W → Type 0) where
  -- A program that runs from the state `u`: it keeps the invariant and the relation up to each call and
  -- to its end, makes its calls as `Sends` says, and leaves `P` of its value.
  abbrev pub Ensures : {A : Type 0} → (A → W → Type 0) → W → Prog C R W A → Type 0
  Ensures P u (done (ok a) w) = Inv w × Rel u w × P a w
  Ensures P u (done (err e) w) = Inv w × Rel u w
  Ensures P u (call c w k) =
      Inv w
      × Rel u w
      × Sends c w
      × ((r : R) (v : W) → E c r → Inv v → Rel w v → Ensures P v (k r v))

  abbrev pub Safe : {A : Type 0} → W → Prog C R W A → Type 0
  Safe = Ensures (λ _ _. Unit)

  module _ (Rel_refl : (w : W) → Rel w w)
      (Rel_trans : (u v w : W) → Rel u v → Rel v w → Rel u w) where
    -- A program may be taken to run from an earlier state.
    pub Ensures-earlier :
        {A : Type 0} (P : A → W → Type 0) (t u : W) (p : Prog C R W A)
        → Rel t u
        → Ensures P u p
        → Ensures P t p
    Ensures-earlier P t u (done (ok a) w) r s = (s.0, Rel_trans t u w r s.1, s.2)
    Ensures-earlier P t u (done (err e) w) r s = (s.0, Rel_trans t u w r s.1)
    Ensures-earlier P t u (call c w k) r s = (s.0, Rel_trans t u w r s.1, s.2, s.3)

    -- What follows a part may rely on the relation since the part began.
    pub bind-Ensures :
        {A B : Type 0} (P' : B → W → Type 0) (P : A → W → Type 0) (f : B → W → Prog C R W A) (u : W)
        (q : Prog C R W B)
        → Ensures P' u q
        → ((b : B) (w : W) → Inv w → Rel u w → P' b w → Ensures P w (f b w))
        → Ensures P u (bind f q)
    bind-Ensures P' P f u (done (ok b) w) s k =
        Ensures-earlier P u w (f b w) s.1 (k b w s.0 s.1 s.2)
    bind-Ensures P' P f u (done (err e) w) s k = s
    bind-Ensures P' P f u (call c w q) s k = (
      s.0,
      s.1,
      s.2,
      λ r v e i l.
          bind-Ensures P' P f v (q r v) (s.3 r v e i l)
            (λ b w' i' l' p. k b w' i' (Rel_trans u v w' (Rel_trans u w v s.1 l) l') p),
    )

    pub catch-Ensures :
        {A : Type 0} (P : A → W → Type 0) (f : Error → W → Prog C R W A) (u : W) (q : Prog C R W A)
        → Ensures P u q
        → ((e : Error) (w : W) → Inv w → Rel u w → Ensures P w (f e w))
        → Ensures P u (catch_prog f q)
    catch-Ensures P f u (done (ok a) w) s k = s
    catch-Ensures P f u (done (err e) w) s k = Ensures-earlier P u w (f e w) s.1 (k e w s.0 s.1)
    catch-Ensures P f u (call c w q) s k = (
      s.0,
      s.1,
      s.2,
      λ r v e i l.
          catch-Ensures P f v (q r v) (s.3 r v e i l)
            (λ x w' i' l'. k x w' i' (Rel_trans u v w' (Rel_trans u w v s.1 l) l')),
    )

    end_as-Safe : (A : Type 0) (x : Exit A) (w : W) → Inv w → Safe w (end_as x tt w)
    end_as-Safe A (ok a) w i = (i, Rel_refl w, tt)
    end_as-Safe A (err e) w i = (i, Rel_refl w)

    -- A `finally` block that may itself wait.
    pub finally_by-Safe :
        {A : Type 0} (m : W → Prog C R W (Unit {0})) (u : W) (q : Prog C R W A)
        → Safe u q
        → ((w : W) → Inv w → Safe w (m w))
        → Safe u (finally_prog m q)
    finally_by-Safe {A} m u (done (ok a) w) s k =
        Ensures-earlier _ u w (bind (end_as (ok a)) (m w)) s.1 (
          bind-Ensures _ _ (end_as (ok a)) w (m w) (k w s.0)
            (λ _ v i _ _. end_as-Safe A (ok a) v i))
    finally_by-Safe {A} m u (done (err e) w) s k =
        Ensures-earlier _ u w (bind (end_as (err e)) (m w)) s.1 (
          bind-Ensures _ _ (end_as (err e)) w (m w) (k w s.0)
            (λ _ v i _ _. end_as-Safe A (err e) v i))
    finally_by-Safe {A} m u (call c w q) s k =
        (s.0, s.1, s.2, λ r v e i l. finally_by-Safe m v (q r v) (s.3 r v e i l) k)

    -- A `finally` block that only changes the state.
    pub finally-Safe :
        {A : Type 0} (m : W → W) (u : W) (q : Prog C R W A)
        → Safe u q
        → ((w : W) → Inv w → Inv (m w) × Rel w (m w))
        → Safe u (finally_prog (modify m) q)
    finally-Safe m u (done (ok a) w) s k =
        let (i, l) = k w s.0 in (i, Rel_trans u w (m w) s.1 l, tt)
    finally-Safe m u (done (err e) w) s k = let (i, l) = k w s.0 in (i, Rel_trans u w (m w) s.1 l)
    finally-Safe m u (call c w q) s k =
        (s.0, s.1, s.2, λ r v e i l. finally-Safe m v (q r v) (s.3 r v e i l) k)

  module _ {A : Type 0} (P : A → W → Type 0) (u w : W) (i : Inv w) (l : Rel u w) where
    pub guard-Ensures :
        (b : Bool) (e : Error) (f : Unit {0} → W → Prog C R W A)
        → (b ≡ true → Ensures P u (f tt w))
        → Ensures P u (bind f (guard b e w))
    guard-Ensures true e f k = k refl
    guard-Ensures false e f k = (i, l)

    pub of_exit-Ensures :
        {B : Type 0} (x : Exit B) (f : B → W → Prog C R W A)
        → ((b : B) → x ≡ ok b → Ensures P u (f b w))
        → Ensures P u (bind f (done x w))
    of_exit-Ensures (ok b) f k = k b refl
    of_exit-Ensures (err e) f k = (i, l)

  pub if-Ensures :
      {A : Type 0} (P : A → W → Type 0) (u : W) (b : Bool) (q r : Prog C R W A)
      → (b ≡ true → Ensures P u q)
      → (b ≡ false → Ensures P u r)
      → Ensures P u (if b then q else r)
  if-Ensures P u true q r k l = k refl
  if-Ensures P u false q r k l = l refl

  pub when-Safe :
      (u w : W) (b : Bool) (m : W → Prog C R W (Unit {0}))
      → Inv w
      → Rel u w
      → (b ≡ true → Safe u (m w))
      → Safe u (when b m w)
  when-Safe u w true m i l k = k refl
  when-Safe u w false m i l k = (i, l, tt)
