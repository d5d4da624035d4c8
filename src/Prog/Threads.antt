-- ===== src/Prog/Threads.antt =====
-- Handlers that interleave: a pool of suspended programs over one state. An invariant that every
-- handler keeps up to each of its calls, and to its end, holds in every reachable state, and every
-- call that was made was made as its handler guarantees.
use mysyncfiles.Prelude.{List, [], ◌∷◌, ◌++◌, All, All-append}
use mysyncfiles.Exit.{ok, err}
use mysyncfiles.Prog.{Prog, done, call}
use mysyncfiles.Prog.Rules.{Kept}

module _ (C R W : Type 0) where
  pub record Thread : Type 0 where
    pub history : List (C × R)
    pub pending : C
    pub resume : R → W → Prog C R W (Unit {0})

  -- The calls that were made are kept with the states in which they were made.
  pub record System : Type 0 where
    pub state : W
    pub pool : List Thread
    pub made : List (C × W)

module _ {C R W : Type 0} where
  -- The system when a handler has run up to its next call, or to its end.
  abbrev pub settle :
      List (C × R) → Prog C R W (Unit {0}) → List (Thread C R W) → List (C × W) → System C R W
  settle h (done x w) pool made = record { state = w; pool = pool; made = made }
  settle h (call c w k) pool made = record {
    state = w;
    pool = record { history = h; pending = c; resume = k } ∷ pool;
    made = (c, w) ∷ made;
  }

  -- Handlers start in any state in which they may; a suspended one goes on with any answer that the
  -- environment can give, in the state that it then finds.
  pub data Step (E : C → R → Type 0) (Starts : (W → Prog C R W (Unit {0})) → W → Type 0)
      : System C R W → System C R W → Type 0 where
    start :
        (m : W → Prog C R W (Unit {0})) (w : W) (pool : List (Thread C R W)) (made : List (C × W))
        → Starts m w
        → Step E Starts (record { state = w; pool = pool; made = made }) (settle [] (m w) pool made)
    resumed :
        (w : W) (before after : List (Thread C R W)) (t : Thread C R W) (made : List (C × W))
        (r : R)
        → E t.pending r
        → Step E Starts
            (record { state = w; pool = before ++ t ∷ after; made = made })
            (settle ((t.pending, r) ∷ t.history) (t.resume r w) (before ++ after) made)

  pub data Reach (E : C → R → Type 0) (Starts : (W → Prog C R W (Unit {0})) → W → Type 0)
      (s : System C R W) : System C R W → Type 0 where
    here : Reach E Starts s s
    next : {t u : System C R W} → Reach E Starts s t → Step E Starts t u → Reach E Starts s u

module _ {C R W : Type 0} (E : C → R → Type 0) (Inv : W → Type 0) (Sends : C → W → Type 0) where
  abbrev pub Ready : Thread C R W → Type 0
  Ready t =
      (r : R) (w : W)
      → E t.pending r
      → Inv w
      → Kept E Inv Sends ((t.pending, r) ∷ t.history) (t.resume r w)

  pub record IsSound (s : System C R W) : Type 0 where
    pub holds : Inv s.state
    pub ready : All Ready s.pool
    pub sent : All (λ x. Sends x.0 x.1) s.made

  settle-IsSound :
      (h : List (C × R)) (p : Prog C R W (Unit {0})) (pool : List (Thread C R W))
      (made : List (C × W))
      → Kept E Inv Sends h p
      → All Ready pool
      → All (λ x. Sends x.0 x.1) made
      → IsSound (settle h p pool made)
  settle-IsSound h (done (ok x) w) pool made s a b = record { holds = s.0; ready = a; sent = b }
  settle-IsSound h (done (err e) w) pool made s a b = record { holds = s; ready = a; sent = b }
  settle-IsSound h (call c w k) pool made s a b = record {
    holds = s.0.0;
    ready = (s.1, a);
    sent = (s.0.1, b);
  }

  All-split :
      (xs ys : List (Thread C R W)) (t : Thread C R W)
      → All Ready (xs ++ t ∷ ys)
      → All Ready xs × Ready t × All Ready ys
  All-split [] ys t a = (tt, a.0, a.1)
  All-split (x ∷ xs) ys t a = let (p, q, r) = All-split xs ys t a.1 in ((a.0, p), q, r)

  module _ (Starts : (W → Prog C R W (Unit {0})) → W → Type 0)
      (sound : (m : W → Prog C R W (Unit {0})) (w : W)
        → Starts m w
        → Inv w
        → Kept E Inv Sends [] (m w)) where
    Step-IsSound : {s t : System C R W} → Step E Starts s t → IsSound s → IsSound t
    Step-IsSound (start m w pool made can) i =
        settle-IsSound [] (m w) pool made (sound m w can i.holds) i.ready i.sent
    Step-IsSound (resumed w before after t made r e) i =
        let (ahead, at, behind) = All-split before after t i.ready in
        settle-IsSound _ (t.resume r w) (before ++ after) made (at r w e i.holds)
          (All-append _ before after ahead behind) i.sent

    -- The invariant holds in every state that handlers reach, interleaved in any order.
    pub Reach-IsSound : {s t : System C R W} → IsSound s → Reach E Starts s t → IsSound t
    Reach-IsSound i here = i
    Reach-IsSound i (next r st) = Step-IsSound st (Reach-IsSound i r)
