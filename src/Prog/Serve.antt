-- ===== src/Prog/Serve.antt =====
-- A program alone on the page, with an environment that answers each call.
use mysyncfiles.Prelude.{◌≡◌, List, ◌∷◌}
use mysyncfiles.Exit.{Error, Exit, ok, err}
use mysyncfiles.Prog.Sat.{Sat}
use mysyncfiles.Prog.{Prog, done, call, bind, catch_prog, finally_prog, modify}

module _ {C R W : Type 0} (env : C → R) where
  -- How the program ends, and the state that it leaves.
  unfoldable pub serve : {A : Type 0} → Prog C R W A → Exit A × W
  serve (done x w) = (x, w)
  serve (call c w k) = serve (k (env c) w)

  pub serve-bind :
      {A B : Type 0} (f : B → W → Prog C R W A) (p : Prog C R W B) (b : B) (w : W)
      → serve p ≡ (ok b, w)
      → serve (bind f p) ≡ serve (f b w)
  unfolding serve
  serve-bind f (done (ok a) u) b w h = cc
  serve-bind f (done (err e) u) b w h = let bad : ⊥ = cc in elim bad [ ]
  serve-bind f (call c u k) b w h = serve-bind f (k (env c) u) b w h

  pub serve-catch :
      {A : Type 0} (f : Error → W → Prog C R W A) (p : Prog C R W A) (a : A) (w : W)
      → serve p ≡ (ok a, w)
      → serve (catch_prog f p) ≡ (ok a, w)
  unfolding serve
  serve-catch f (done (ok a') u) a w h = h
  serve-catch f (done (err e) u) a w h = let bad : ⊥ = cc in elim bad [ ]
  serve-catch f (call c u k) a w h = serve-catch f (k (env c) u) a w h

  pub serve-finally :
      {A : Type 0} (m : W → W) (p : Prog C R W A) (a : A) (w : W)
      → serve p ≡ (ok a, w)
      → serve (finally_prog (modify m) p) ≡ (ok a, m w)
  unfolding serve
  serve-finally m (done x u) a w h = cc
  serve-finally m (call c u k) a w h = serve-finally m (k (env c) u) a w h

  pub serve-bind_error :
      {A B : Type 0} (f : B → W → Prog C R W A) (p : Prog C R W B) (e : Error) (w : W)
      → serve p ≡ (err e, w)
      → serve (bind f p) ≡ (err e, w)
  unfolding serve
  serve-bind_error f (done (ok a) u) e w h = let bad : ⊥ = cc in elim bad [ ]
  serve-bind_error f (done (err e') u) e w h = cc
  serve-bind_error f (call c u k) e w h = serve-bind_error f (k (env c) u) e w h

  pub serve-catch_error :
      {A : Type 0} (f : Error → W → Prog C R W A) (p : Prog C R W A) (e : Error) (w : W)
      → serve p ≡ (err e, w)
      → serve (catch_prog f p) ≡ serve (f e w)
  unfolding serve
  serve-catch_error f (done (ok a) u) e w h = let bad : ⊥ = cc in elim bad [ ]
  serve-catch_error f (done (err e') u) e w h = cc
  serve-catch_error f (call c u k) e w h = serve-catch_error f (k (env c) u) e w h

  pub serve-finally_error :
      {A : Type 0} (m : W → W) (p : Prog C R W A) (e : Error) (w : W)
      → serve p ≡ (err e, w)
      → serve (finally_prog (modify m) p) ≡ (err e, m w)
  unfolding serve
  serve-finally_error m (done x u) e w h = cc
  serve-finally_error m (call c u k) e w h = serve-finally_error m (k (env c) u) e w h

  -- What a program guarantees of its end whatever is answered holds of its end alone, if the page stays
  -- as it is across each call.
  pub Sat-serve :
      {A : Type 0} (E : C → R → Type 0) (I : W → Type 0) (Sends : C → W → Type 0)
      (Q : List (C × R) → Exit A → W → Type 0) (p : Prog C R W A) (h : List (C × R))
      → ((c : C) → E c (env c))
      → Sat E I (λ _ c w. I w × Sends c w) Q h p
      → (h' : List (C × R)) × Q h' (serve p).0 (serve p).1
  unfolding serve
  Sat-serve E I Sends Q (done x w) h e s = (h, s)
  Sat-serve E I Sends Q (call c w k) h e s =
      Sat-serve E I Sends Q (k (env c) w) ((c, env c) ∷ h) e (s.1 (env c) w (e c) s.0.0)
