-- ===== src/Files/Lease.antt =====
-- What the session of the files page promises (web/atlas.js): an automaton that is open or closed, and
-- that the page refines as its handlers interleave.
use native.Mathlib.Decide.{dec_lt}
use mysyncfiles.Prelude.{
  ℕ, ◌≡◌, ◌<◌, refl, sym, ap, subst, Bool, true, false, Option, none, some, arith,
}
use mysyncfiles.Prog.Threads.{System, Step, next}
use mysyncfiles.Prog.Relied.{Step-Rel}
use mysyncfiles.Files.State.{Session, Page, is_some}
use mysyncfiles.Files.Calls.{Call, Reply}
use mysyncfiles.Files.Fits.{Server, IsBlank, IsLive, Rel, Rel_refl, Rel_trans, Sends, Serves, Inv}
use mysyncfiles.Files.Reachable.{Handler, Handler-Safe, Reaches, reached}

-- A period of the page, and whether the account is open in it.
pub data Lease : Type 0 where
  closed open_in : ℕ → Lease

-- A period is opened once, and stays open to its end; a later one begins closed.
pub data Move : Lease → Lease → Type 0 where
  opens : (n : ℕ) → Move (closed n) (open_in n)
  closes : (n m : ℕ) → n < m → Move (open_in n) (closed m)
  renews : (n m : ℕ) → n < m → Move (closed n) (closed m)

pub data Moves (a : Lease) : Lease → Type 0 where
  stays : Moves a a
  then : {b c : Lease} → Moves a b → Move b c → Moves a c

-- What the automaton sees of the page.
abbrev pub lease : Bool → ℕ → Lease
lease true n = open_in n
lease false n = closed n

abbrev pub lease_of : Page → Lease
lease_of s = lease (is_some s.shown.session) s.epoch

-- What it promises of the page: nothing of the account is shown outside an open period.
abbrev pub Promises : Lease → Page → Type 0
Promises (closed n) s = IsBlank s.shown × (s.epoch ≡ n)
Promises (open_in n) s = IsLive s × (s.epoch ≡ n)

Moves-within : (a b : Bool) (n : ℕ) → (a ≡ true → b ≡ true) → Moves (lease a n) (lease b n)
Moves-within true true n keeps = stays
Moves-within true false n keeps = let bad : ⊥ = cc (keeps refl) in elim bad [ ]
Moves-within false true n keeps = then stays (opens n)
Moves-within false false n keeps = stays

Moves-ends : (a : Bool) (m n : ℕ) → m < n → Moves (lease a m) (closed n)
Moves-ends true m n later = then stays (closes m n later)
Moves-ends false m n later = then stays (renews m n later)

Moves-later : (a b : Bool) (m n : ℕ) → m < n → Moves (lease a m) (lease b n)
Moves-later a true m n later = then (Moves-ends a m n later) (opens n)
Moves-later a false m n later = Moves-ends a m n later

Rel-Moves : (s t : Page) → Rel s t → Moves (lease_of s) (lease_of t)
Rel-Moves s t r = elim (dec_lt s.epoch t.epoch) [
  | yes later ↦
      Moves-later (is_some s.shown.session) (is_some t.shown.session) s.epoch t.epoch later
  | no within ↦
      let same : s.epoch ≡ t.epoch = omega (arith, r.0, within) in
      subst (λ n. Moves (lease_of s) (lease (is_some t.shown.session) n)) same
        (Moves-within (is_some s.shown.session) (is_some t.shown.session) s.epoch (r.1 same))
]

module _ (Served : Server) where
  keeps-Promises : (s : Page) → Inv Served s → Promises (lease_of s) s
  keeps-Promises s i = split s.shown.session refl
    where
      split : (o : Option Session) → s.shown.session ≡ o → Promises (lease_of s) s
      split none h =
          subst (λ b. Promises (lease b s.epoch) s) (sym (ap is_some h)) (i.0.bare h, refl)
      split (some x) h =
          subst (λ b. Promises (lease b s.epoch) s) (sym (ap is_some h)) (ap is_some h, refl)

  -- The handlers of the files page, interleaved in any order, refine the automaton of periods: each step
  -- from a reachable state to another moves it along its transitions, if at all, and the page that it
  -- leaves keeps the promise of the state that it is in.
  pub reached-Refines :
      (y z : System Call Reply Page)
      → Reaches Served y
      → Step (Serves Served) Handler y z
      → Moves (lease_of y.state) (lease_of z.state) × Promises (lease_of z.state) z.state
  reached-Refines y z r step = (
    Rel-Moves y.state z.state (
        Step-Rel (Serves Served) (Inv Served) Rel (Sends Served) Rel_trans Rel_refl Handler
          (Handler-Safe Served) step (reached Served y r)),
    keeps-Promises z.state (reached Served z (next r step)).holds,
  )
