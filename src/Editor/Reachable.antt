-- ===== src/Editor/Reachable.antt =====
-- The editor as its handlers interleave: what is stored, and what is run.
use mysyncfiles.Prelude.{ℕ, ◌≡◌, refl, true, false, none, some, [], Text, has_unit, All-Memᴰ, Memᴰ}
use mysyncfiles.Prog.{modify}
use mysyncfiles.Prog.Threads.{System, Reach, IsSound, Reach-IsSound}
use mysyncfiles.Http.{Answer}
use mysyncfiles.Editor.State.{Entry, Editor, dirty, edit}
use mysyncfiles.Editor.Calls.{Call, post_ticket, put_file, start, M}
use mysyncfiles.Editor.Save.{fire, flush}
use mysyncfiles.Editor.Open.{lock, open_file, retry}
use mysyncfiles.Editor.Run.{detect, poll_job, run_clicked, leave}
use mysyncfiles.Editor.Invariant.{Platform, IsPlatform, Shows, Inv, Genuine, Sends, DraftOf}
use mysyncfiles.Editor.Saves.{Kept}
use mysyncfiles.Editor.Flushes.{fire-Kept, flush-Kept}
use mysyncfiles.Editor.Opens.{edit-Inv, lock-Inv}
use mysyncfiles.Editor.Retries.{open_file-Kept, retry-Kept}
use mysyncfiles.Editor.Runs.{detect-Kept, poll_job-Kept}
use mysyncfiles.Editor.Starts.{dirty-Shows, run_clicked-Kept, leave-Kept}

-- The variables as the closure declares them.
abbrev pub initial : Text → Editor
initial path = record {
  path = path;
  entry = none;
  value = [];
  saved_text = [];
  crlf = false;
  timer = false;
  saving = none;
  unconfirmed = none;
  edit_allowed = false;
  save_error = none;
  ready = false;
  detecting = false;
  starting = false;
  departing = false;
  job = none;
  polling = false;
  last_run_text = none;
  cleared = false;
  leaving = false;
  opening = false;
  generation = 0;
  aborted = false;
  read_only = true;
  run_disabled = true;
}

-- The handlers, and the states in which the page may start them: the user edits, saves, runs or
-- stops, retries, detects and leaves; timers fire; the page opens the file and locks the editor.
pub data Handler (p : Platform) : M (Unit {0}) → Editor → Type 0 where
  edited : (t : Text) (s : Editor) → has_unit 13 t ≡ false → Handler p (modify (edit t)) s
  fired : (s : Editor) → s.timer ≡ true → Handler p fire s
  saved : (fuel : ℕ) (s : Editor) → Handler p (flush fuel) s
  opened : (s : Editor) → Handler p (open_file p.normalise detect) s
  retried : (fuel : ℕ) (s : Editor) → Handler p (retry p.normalise fuel detect) s
  detected : (s : Editor) → Handler p detect s
  clicked : (fuel : ℕ) (id : Text) (s : Editor) → Handler p (run_clicked fuel id) s
  polled : (s : Editor) → s.polling ≡ true → Handler p poll_job s
  left : (fuel : ℕ) (s : Editor) → Handler p (leave fuel) s
  locked : (s : Editor) → Handler p (modify (λ s. (lock s).0)) s

module _ (p : Platform) (Stored : ℕ → Text → Type 0) (platform : IsPlatform p) where
  Handler-Kept :
      (m : M (Unit {0})) (s : Editor) → Handler p m s → Inv p Stored s → Kept p Stored [] (m s)
  Handler-Kept m s (edited t _ plain) i = (edit-Inv p Stored t s plain i, tt)
  Handler-Kept m s (fired _ _) i = fire-Kept p Stored platform [] s i
  Handler-Kept m s (saved fuel _) i = flush-Kept p Stored platform fuel [] s i
  Handler-Kept m s (opened _) i =
      open_file-Kept p Stored platform detect (detect-Kept p Stored) [] s i
  Handler-Kept m s (retried fuel _) i =
      retry-Kept p Stored platform detect (detect-Kept p Stored) fuel [] s i
  Handler-Kept m s (detected _) i = detect-Kept p Stored [] s i
  Handler-Kept m s (clicked fuel id _) i = run_clicked-Kept p Stored platform fuel id [] s i
  Handler-Kept m s (polled _ _) i = poll_job-Kept p Stored [] s i
  Handler-Kept m s (left fuel _) i = leave-Kept p Stored platform fuel [] s i
  Handler-Kept m s (locked _) i = (lock-Inv p Stored s i, tt)

  abbrev pub Reaches : Text → System Call Answer Editor → Type 0
  Reaches path =
      Reach (Genuine p Stored) (Handler p) (record { state = initial path; pool = []; made = [] })

  initial-Inv : (path : Text) → Inv p Stored (initial path)
  unfolding has_unit
  initial-Inv path = record { saved = tt; draft = tt; plain = refl }

  Reaches-IsSound :
      (path : Text) (y : System Call Answer Editor)
      → Reaches path y
      → IsSound (Genuine p Stored) (Inv p Stored) (Sends p Stored) y
  Reaches-IsSound path y =
      Reach-IsSound (Genuine p Stored) (Inv p Stored) (Sends p Stored) (Handler p) Handler-Kept
        (record { holds = initial-Inv path; ready = tt; sent = tt })

  -- In every reachable state of the page, if the editor counts its text as saved over a known version,
  -- the server has stored, under that version's revision, a content that the input shows as this text.
  pub clean_is_stored :
      (path : Text) (y : System Call Answer Editor) (e : Entry)
      → Reaches path y
      → y.state.entry ≡ some e
      → dirty y.state ≡ false
      → Shows p Stored e.revision y.state.value
  clean_is_stored path y e r known clean =
      dirty-Shows p Stored y.state e known clean (Reaches-IsSound path y r).holds

  -- In every reachable state, each start of a run that was asked for named a revision under which the
  -- server has stored a content that the input showed when the start was asked for.
  pub started_is_shown :
      (path : Text) (y : System Call Answer Editor) (s : Editor) (file : Text) (r : ℕ) (h id : Text)
      → Reaches path y
      → Memᴰ (post_ticket (start file r h id), s) y.made
      → Shows p Stored r s.value
  started_is_shown path y s file r h id reached m =
      All-Memᴰ _ m (Reaches-IsSound path y reached).sent

  -- In every reachable state, each save that was sent named a base revision that the server has stored,
  -- and when it was sent the page kept its base and its content as the unconfirmed draft, with the text
  -- that the input shows of that content.
  pub sent_over_stored :
      (path : Text) (y : System Call Answer Editor) (s : Editor) (file : Text) (base : ℕ) (c : Text)
      → Reaches path y
      → Memᴰ (put_file file base c, s) y.made
      → (b : Text) × Stored base b × DraftOf p base c s.unconfirmed
  sent_over_stored path y s file base c reached m =
      All-Memᴰ _ m (Reaches-IsSound path y reached).sent
