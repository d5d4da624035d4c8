-- ===== src/Prog/Plays.antt =====
-- The calls that a program makes alone on the page, with an environment that answers each, its end, and
-- the state that it leaves.
use mysyncfiles.Prelude.{◌≡◌, subst, sym, List, [], ◌∷◌, ◌++◌}
use mysyncfiles.Exit.{Error, Exit, ok, err}
use mysyncfiles.Prog.{Prog, done, call, bind, catch_prog, finally_prog, end_as}

module _ {C R W : Type 0} (env : C → R) where
  abbrev pub Plays : {A : Type 0} → Prog C R W A → List C → Exit A → W → Type 0
  Plays (done x w) calls y v = (calls ≡ []) × (x ≡ y) × (w ≡ v)
  Plays (call c w k) [] y v = ⊥
  Plays (call c w k) (d ∷ calls) y v = (d ≡ c) × Plays (k (env c) w) calls y v

  pub bind-Plays :
      {A B : Type 0} (f : B → W → Prog C R W A) (p : Prog C R W B) (first rest : List C) (b : B)
      (w : W) (x : Exit A) (v : W)
      → Plays p first (ok b) w
      → Plays (f b w) rest x v
      → Plays (bind f p) (first ++ rest) x v
  bind-Plays f (done (ok a) u) first rest b w x v h k =
      let same : a ≡ b = cc (h.1) in
      subst (λ cs. Plays (f a u) (cs ++ rest) x v) (sym h.0)
        (subst (λ s. Plays (f a s) rest x v) (sym h.2)
          (subst (λ y. Plays (f y w) rest x v) (sym same) k))
  bind-Plays f (done (err e) u) first rest b w x v h k = let bad : ⊥ = cc (h.1) in elim bad [ ]
  bind-Plays f (call c u p) [] rest b w x v h k = elim h [ ]
  bind-Plays f (call c u p) (d ∷ first) rest b w x v h k =
      (h.0, bind-Plays f (p (env c) u) first rest b w x v h.1 k)

  pub catch-Plays :
      {A : Type 0} (f : Error → W → Prog C R W A) (p : Prog C R W A) (calls : List C) (a : A)
      (w : W)
      → Plays p calls (ok a) w
      → Plays (catch_prog f p) calls (ok a) w
  catch-Plays f (done (ok b) u) calls a w h = h
  catch-Plays f (done (err e) u) calls a w h = let bad : ⊥ = cc (h.1) in elim bad [ ]
  catch-Plays f (call c u p) [] a w h = elim h [ ]
  catch-Plays f (call c u p) (d ∷ calls) a w h = (h.0, catch-Plays f (p (env c) u) calls a w h.1)

  pub finally-Plays :
      {A : Type 0} (m : W → Prog C R W (Unit {0})) (p : Prog C R W A) (first rest : List C)
      (x : Exit A) (w v : W)
      → Plays p first x w
      → Plays (bind (end_as x) (m w)) rest x v
      → Plays (finally_prog m p) (first ++ rest) x v
  finally-Plays m (done y u) first rest x w v h k =
      subst (λ cs. Plays (bind (end_as y) (m u)) (cs ++ rest) x v) (sym h.0)
        (subst (λ s. Plays (bind (end_as y) (m s)) rest x v) (sym h.2)
          (subst (λ z. Plays (bind (end_as z) (m w)) rest x v) (sym h.1) k))
  finally-Plays m (call c u p) [] rest x w v h k = elim h [ ]
  finally-Plays m (call c u p) (d ∷ first) rest x w v h k =
      (h.0, finally-Plays m (p (env c) u) first rest x w v h.1 k)
