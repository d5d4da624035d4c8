-- ===== src/Prog/Rules.antt =====
-- Rules for programs that keep an invariant, one for each step of a handler.
use mysyncfiles.Prelude.{◌≡◌, refl, Bool, true, false, if◌then◌else◌, List, ◌∷◌}
use mysyncfiles.Exit.{Exit, ok, err, Error}
use mysyncfiles.Prog.{Prog, done, call, bind, catch_prog, finally_prog, modify, guard, when}
use mysyncfiles.Prog.Sat.{Sat}

module _ {C R W : Type 0} (E : C → R → Type 0) (Inv : W → Type 0) (Sends : C → W → Type 0) where
  abbrev pub Ends : {A : Type 0} → (A → W → Type 0) → List (C × R) → Exit A → W → Type 0
  Ends P h (ok a) w = Inv w × P a w
  Ends P h (err e) w = Inv w

  -- A program that keeps the invariant up to each call, makes its calls as `Sends` says, and leaves
  -- `P` of its value.
  abbrev pub Leaves : {A : Type 0} → (A → W → Type 0) → List (C × R) → Prog C R W A → Type 0
  Leaves P = Sat E Inv (λ _ c w. Inv w × Sends c w) (Ends P)

  abbrev pub Kept : {A : Type 0} → List (C × R) → Prog C R W A → Type 0
  Kept = Leaves (λ _ _. Unit)

  module _ {A : Type 0} (P : A → W → Type 0) (h : List (C × R)) (w : W) (i : Inv w) where
    pub guard-Leaves :
        (b : Bool) (e : Error) (f : Unit {0} → W → Prog C R W A)
        → (b ≡ true → Leaves P h (f tt w))
        → Leaves P h (bind f (guard b e w))
    guard-Leaves true e f k = k refl
    guard-Leaves false e f k = i

    pub of_exit-Leaves :
        {B : Type 0} (x : Exit B) (f : B → W → Prog C R W A)
        → ((b : B) → x ≡ ok b → Leaves P h (f b w))
        → Leaves P h (bind f (done x w))
    of_exit-Leaves (ok b) f k = k b refl
    of_exit-Leaves (err e) f k = i

  module _ {A : Type 0} (P : A → W → Type 0) where
    pub bind-Leaves :
        {B : Type 0} (P' : B → W → Type 0) (f : B → W → Prog C R W A) (q : Prog C R W B)
        (h : List (C × R))
        → Leaves P' h q
        → ((h : List (C × R)) (b : B) (w : W) → Inv w → P' b w → Leaves P h (f b w))
        → Leaves P h (bind f q)
    bind-Leaves P' f (done (ok b) w) h l k = k h b w l.0 l.1
    bind-Leaves P' f (done (err e) w) h l k = l
    bind-Leaves P' f (call c w q) h l k =
        (l.0, λ r w' e i. bind-Leaves P' f (q r w') ((c, r) ∷ h) (l.1 r w' e i) k)

    -- A part of a block that leaves nothing but the invariant.
    pub seq-Leaves :
        {B : Type 0} (f : B → W → Prog C R W A) (q : Prog C R W B) (h : List (C × R))
        → Kept h q
        → ((h : List (C × R)) (b : B) (w : W) → Inv w → Leaves P h (f b w))
        → Leaves P h (bind f q)
    seq-Leaves f q h l k = bind-Leaves (λ _ _. Unit) f q h l (λ h b w i _. k h b w i)

  -- What a program leaves of its value may be forgotten.
  pub Leaves-Kept :
      {A : Type 0} (P : A → W → Type 0) (q : Prog C R W A) (h : List (C × R))
      → Leaves P h q
      → Kept h q
  Leaves-Kept P (done (ok a) w) h l = (l.0, tt)
  Leaves-Kept P (done (err e) w) h l = l
  Leaves-Kept P (call c w q) h l =
      (l.0, λ r w' e i. Leaves-Kept P (q r w') ((c, r) ∷ h) (l.1 r w' e i))

  pub done-Kept : {A : Type 0} (x : Exit A) (h : List (C × R)) (w : W) → Inv w → Kept h (done x w)
  done-Kept (ok a) h w i = (i, tt)
  done-Kept (err e) h w i = i

  pub when-Kept :
      (b : Bool) (m : W → Prog C R W (Unit {0})) (h : List (C × R)) (w : W)
      → Inv w
      → (b ≡ true → Kept h (m w))
      → Kept h (when b m w)
  when-Kept true m h w i k = k refl
  when-Kept false m h w i k = (i, tt)

  pub if-Kept :
      {A : Type 0} (b : Bool) (q r : Prog C R W A) (h : List (C × R))
      → (b ≡ true → Kept h q)
      → (b ≡ false → Kept h r)
      → Kept h (if b then q else r)
  if-Kept true q r h k l = k refl
  if-Kept false q r h k l = l refl

  module _ {A : Type 0} where
    pub catch-Kept :
        (f : Error → W → Prog C R W A) (q : Prog C R W A) (h : List (C × R))
        → Kept h q
        → ((h : List (C × R)) (e : Error) (w : W) → Inv w → Kept h (f e w))
        → Kept h (catch_prog f q)
    catch-Kept f (done (ok a) w) h l k = l
    catch-Kept f (done (err e) w) h l k = k h e w l
    catch-Kept f (call c w q) h l k =
        (l.0, λ r w' e i. catch-Kept f (q r w') ((c, r) ∷ h) (l.1 r w' e i) k)

    pub finally-Kept :
        (m : W → W) (q : Prog C R W A) (h : List (C × R))
        → Kept h q
        → ((w : W) → Inv w → Inv (m w))
        → Kept h (finally_prog (modify m) q)
    finally-Kept m (done (ok a) w) h l k = (k w l.0, tt)
    finally-Kept m (done (err e) w) h l k = k w l
    finally-Kept m (call c w q) h l k =
        (l.0, λ r w' e i. finally-Kept m (q r w') ((c, r) ∷ h) (l.1 r w' e i) k)
