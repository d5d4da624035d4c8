-- ===== src/Prog/Relied.antt =====
-- The states that handlers reach, interleaved, when they rely on a relation between earlier and later
-- states (Prog.Stable).
use mysyncfiles.Prelude.{List, [], ◌∷◌, ◌++◌, All, All-append}
use mysyncfiles.Exit.{ok, err}
use mysyncfiles.Prog.{Prog, done, call}
use mysyncfiles.Prog.Stable.{Safe}
use mysyncfiles.Prog.Threads.{Thread, System, settle, Step, start, resumed, Reach, here, next}

module _ {C R W : Type 0} (E : C → R → Type 0) (Inv : W → Type 0) (Rel : W → W → Type 0)
    (Sends : C → W → Type 0) (Rel_trans : (u v w : W) → Rel u v → Rel v w → Rel u w) where
  -- A suspended handler may go on in any state that comes after `u`.
  abbrev pub IsReady : W → Thread C R W → Type 0
  IsReady u t =
      (r : R) (v : W) → E t.pending r → Inv v → Rel u v → Safe E Inv Rel Sends v (t.resume r v)

  pub record IsRelied (y : System C R W) : Type 0 where
    pub holds : Inv y.state
    pub ready : All (IsReady y.state) y.pool
    pub sent : All (λ x. Sends x.0 x.1) y.made

  ready_later :
      (u v : W) (pool : List (Thread C R W)) → Rel u v → All (IsReady u) pool → All (IsReady v) pool
  ready_later u v [] l a = tt
  ready_later u v (t ∷ pool) l a =
      (λ r w e i k. a.0 r w e i (Rel_trans u v w l k), ready_later u v pool l a.1)

  settle-IsRelied :
      (h : List (C × R)) (u : W) (p : Prog C R W (Unit {0})) (pool : List (Thread C R W))
      (made : List (C × W))
      → Safe E Inv Rel Sends u p
      → All (IsReady u) pool
      → All (λ x. Sends x.0 x.1) made
      → IsRelied (settle h p pool made)
  settle-IsRelied h u (done (ok a) w) pool made s a' b = record {
    holds = s.0;
    ready = ready_later u w pool s.1 a';
    sent = b;
  }
  settle-IsRelied h u (done (err e) w) pool made s a' b = record {
    holds = s.0;
    ready = ready_later u w pool s.1 a';
    sent = b;
  }
  settle-IsRelied h u (call c w k) pool made s a' b = record {
    holds = s.0;
    ready = (s.3, ready_later u w pool s.1 a');
    sent = (s.2, b);
  }

  settle-Rel :
      (h : List (C × R)) (u : W) (p : Prog C R W (Unit {0})) (pool : List (Thread C R W))
      (made : List (C × W))
      → Safe E Inv Rel Sends u p
      → Rel u (settle h p pool made).state
  settle-Rel h u (done (ok a) w) pool made s = s.1
  settle-Rel h u (done (err e) w) pool made s = s.1
  settle-Rel h u (call c w k) pool made s = s.1

  All-split :
      (P : Thread C R W → Type 0) (xs ys : List (Thread C R W)) (t : Thread C R W)
      → All P (xs ++ t ∷ ys)
      → All P xs × P t × All P ys
  All-split P [] ys t a = (tt, a.0, a.1)
  All-split P (x ∷ xs) ys t a = let (p, q, r) = All-split P xs ys t a.1 in ((a.0, p), q, r)

  module _ (Rel_refl : (w : W) → Rel w w) (Starts : (W → Prog C R W (Unit {0})) → W → Type 0)
      (sound : (m : W → Prog C R W (Unit {0})) (w : W)
        → Starts m w
        → Inv w
        → Safe E Inv Rel Sends w (m w)) where
    Step-IsRelied : {s t : System C R W} → Step E Starts s t → IsRelied s → IsRelied t
    Step-IsRelied (start m w pool made can) i =
        settle-IsRelied [] w (m w) pool made (sound m w can i.holds) i.ready i.sent
    Step-IsRelied (resumed w before after t made r e) i =
        let (ahead, at, behind) = All-split (IsReady w) before after t i.ready in
        settle-IsRelied _ w (t.resume r w) (before ++ after) made (at r w e i.holds (Rel_refl w))
          (All-append _ before after ahead behind) i.sent

    -- What the handlers rely on holds between the states of two systems of which one follows the other.
    pub Step-Rel : {s t : System C R W} → Step E Starts s t → IsRelied s → Rel s.state t.state
    Step-Rel (start m w pool made can) i = settle-Rel [] w (m w) pool made (sound m w can i.holds)
    Step-Rel (resumed w before after t made r e) i =
        settle-Rel _ w (t.resume r w) (before ++ after) made
          ((All-split (IsReady w) before after t i.ready).1 r w e i.holds (Rel_refl w))

    -- The invariant holds in every state that such handlers reach, interleaved in any order.
    pub Reach-IsRelied : {s t : System C R W} → IsRelied s → Reach E Starts s t → IsRelied t
    Reach-IsRelied i here = i
    Reach-IsRelied i (next r st) = Step-IsRelied st (Reach-IsRelied i r)
