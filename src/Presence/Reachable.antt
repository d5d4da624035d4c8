-- ===== src/Presence/Reachable.antt =====
-- The presence page (web/status.js) as its handlers interleave: what it shows, for how long.
use mysyncfiles.Prelude.{Bool, ℕ, ◌≡◌, true, false, none, some, [], Text}
use mysyncfiles.Value.{Value}
use mysyncfiles.Http.{Answer}
use mysyncfiles.Prog.{modify}
use mysyncfiles.Prog.Threads.{System, Reach}
use mysyncfiles.Presence.State.{
  Presence, Stage, welcome, Page, Call, M, expire, cancel, timer_fired, waited,
}
use mysyncfiles.Presence.{verify}
use mysyncfiles.Presence.Shown.{Confirms}

-- The page as it is written out; `permissions` is whether the browser has `navigator.permissions`.
abbrev pub initial : Bool → ℕ → Page
initial permissions now = record {
  shown = none;
  previous = none;
  expiry_timer = false;
  message = welcome;
  active = none;
  disabled = false;
  cancel_hidden = true;
  timer = none;
  waiting = false;
  at_server = false;
  user_cancelled = false;
  aborted = false;
  lookup_aborted = false;
  permissions = permissions;
  clock = now;
}

abbrev pub set_clock : ℕ → Page → Page
set_clock now s = record s { clock = now }

-- The handlers, and the states in which the page may start them: the buttons are clicked, the timers
-- that are set fire, and the clock of the computer tells any time.
pub data Handler : M (Unit {0}) → Page → Type 0 where
  verified : (s : Page) → s.disabled ≡ false → Handler verify s
  cancelled : (s : Page) → s.cancel_hidden ≡ false → Handler (modify cancel) s
  expired : (s : Page) → s.expiry_timer ≡ true → Handler (modify expire) s
  timed : (stage : Stage) (s : Page) → s.timer ≡ some stage → Handler (modify (timer_fired stage)) s
  wait_shown : (s : Page) → s.waiting ≡ true → Handler (modify waited) s
  ticked : (now : ℕ) (s : Page) → Handler (modify (set_clock now)) s

module _ (Confirmed : Text → Value → Type 0) where
  abbrev pub Reaches : Bool → ℕ → System Call Answer Page → Type 0
  Reaches permissions now =
      Reach (Confirms Confirmed) Handler
        (record { state = initial permissions now; pool = []; made = [] })
