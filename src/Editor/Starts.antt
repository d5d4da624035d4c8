-- ===== src/Editor/Starts.antt =====
-- The start of a run, leaving the page, and the invariant of the editor.
use mysyncfiles.Prelude.{
  ℕ, ◌≡◌, refl, sym, subst, Bool, true, false, not, ◌&&◌, ◌||◌, Option, none, some, Text, text_eq,
  text_eq_sound,
}
use mysyncfiles.Exit.{ok}
use mysyncfiles.Prog.{modify, pure}
use mysyncfiles.Prog.Rules
use mysyncfiles.Editor.State.{Entry, Job, Editor, dirty, is_some}
use mysyncfiles.Editor.Calls.{start, stop}
use mysyncfiles.Editor.Save.{flush}
use mysyncfiles.Editor.Run.{
  local, entry_of, begin_start, end_start, set_job, start_job, flush_and_start, drop_job, start_run,
  clicked, run_clicked, begin_leave, end_leave, stop_running, flush_and_stop, leave_now, leave,
  set_leaving,
}
use mysyncfiles.Editor.Invariant.{Platform, IsPlatform, Shows, EntryShows, Inv}
use mysyncfiles.Editor.Saves.{History, Kept, try-Kept}
use mysyncfiles.Editor.Flushes.{flush-Leaves, flush-Kept}
use mysyncfiles.Editor.Runs.{local-Kept, render-Kept, stop_job-Kept}

eq-true_of_not : (b : Bool) → not b ≡ false → b ≡ true
eq-true_of_not true h = refl
eq-true_of_not false h = cc

entry_of-eq-ok : (o : Option Entry) (e : Entry) → entry_of o ≡ ok e → o ≡ some e
unfolding entry_of
entry_of-eq-ok none e h = cc
entry_of-eq-ok (some e') e h = cc

module _ (p : Platform) (Stored : ℕ → Text → Type 0) where
  entry-Shows :
      (o : Option Entry) (e : Entry) (value saved_text : Text)
      → o ≡ some e
      → (is_some o && not (text_eq value saved_text)) ≡ false
      → EntryShows p Stored o saved_text
      → Shows p Stored e.revision value
  entry-Shows none e value saved_text known clean v = cc
  entry-Shows (some e') e value saved_text known clean v =
      let same : value ≡ saved_text =
        text_eq_sound value saved_text (eq-true_of_not (text_eq value saved_text) clean) in
      let here : e'.revision ≡ e.revision = cc in
      subst (λ r. Shows p Stored r value) here (subst (Shows p Stored e'.revision) (sym same) v)

  -- The version that is known is what the input shows, if nothing is unsaved.
  pub dirty-Shows :
      (s : Editor) (e : Entry)
      → s.entry ≡ some e
      → dirty s ≡ false
      → Inv p Stored s
      → Shows p Stored e.revision s.value
  unfolding dirty
  dirty-Shows s e known clean i = entry-Shows s.entry e s.value s.saved_text known clean i.saved

  set_job-Inv :
      (id sha256 : Text) (s : Editor) → Inv p Stored s → Inv p Stored (set_job id sha256 s)
  unfolding set_job
  set_job-Inv id sha256 s i = record { saved = i.saved; draft = i.draft; plain = i.plain }

  -- What the input shows is what a start names, up to its first call.
  start_job-Kept :
      (id : Text) (h : History p Stored) (s : Editor)
      → dirty s ≡ false
      → Inv p Stored s
      → Kept p Stored h (start_job id s)
  unfolding start_job
  start_job-Kept id h s clean i = Rules.of_exit-Leaves _ _ _ _ h s i (entry_of s.entry) _ λ e found.
      let s0 = set_job id e.sha256 s in
      Rules.seq-Leaves _ _ _ _ _ (local (start s.path e.revision e.sha256 id) s0) h
        (local-Kept p Stored (start s.path e.revision e.sha256 id) h s0
          (dirty-Shows s e (entry_of-eq-ok s.entry e found) clean i) (set_job-Inv id e.sha256 s i))
        (λ h1 v s1 i1. render-Kept p Stored v h1 s1 i1)

module _ (p : Platform) (Stored : ℕ → Text → Type 0) (platform : IsPlatform p) where
  flush_and_start-Kept :
      (fuel : ℕ) (id : Text) (h : History p Stored) (s : Editor)
      → Inv p Stored s
      → Kept p Stored h (flush_and_start fuel id s)
  unfolding flush_and_start
  flush_and_start-Kept fuel id h s i =
      Rules.bind-Leaves _ _ _ _ (λ _ s'. (dirty s' ≡ false) × (s'.save_error ≡ none)) _
        (flush fuel s) h (flush-Leaves p Stored platform fuel h s i)
        (λ h1 _ s1 i1 clean. start_job-Kept p Stored id h1 s1 clean.0 i1)

  start_run-Kept :
      (fuel : ℕ) (id : Text) (h : History p Stored) (s : Editor)
      → Inv p Stored s
      → Kept p Stored h (start_run fuel id s)
  unfolding start_run begin_start end_start drop_job
  start_run-Kept fuel id h s i =
      try-Kept p Stored (λ _. modify drop_job) end_start (flush_and_start fuel id (begin_start s)) h
        (flush_and_start-Kept fuel id h (begin_start s)
          (record { saved = i.saved; draft = i.draft; plain = i.plain }))
        (λ _ _ s1 i1. (record { saved = i1.saved; draft = i1.draft; plain = i1.plain }, tt))
        (λ s1 i1. record { saved = i1.saved; draft = i1.draft; plain = i1.plain })

  clicked-Kept :
      (job : Option Job) (fuel : ℕ) (id : Text) (h : History p Stored) (s : Editor)
      → Inv p Stored s
      → Kept p Stored h (clicked job fuel id s)
  unfolding clicked
  clicked-Kept (some job) fuel id h s i = stop_job-Kept p Stored job h s i
  clicked-Kept none fuel id h s i =
      Rules.if-Kept _ _ _ (not s.ready || s.starting) (pure tt s) (start_run fuel id s) h
        (λ _. (i, tt)) (λ _. start_run-Kept fuel id h s i)

  pub run_clicked-Kept :
      (fuel : ℕ) (id : Text) (h : History p Stored) (s : Editor)
      → Inv p Stored s
      → Kept p Stored h (run_clicked fuel id s)
  unfolding run_clicked
  run_clicked-Kept fuel id h s i = clicked-Kept s.job fuel id h s i

  stop_running-Kept :
      (job : Option Job) (h : History p Stored) (s : Editor)
      → Inv p Stored s
      → Kept p Stored h (stop_running job s)
  unfolding stop_running
  stop_running-Kept none h s i = (i, tt)
  stop_running-Kept (some job) h s i =
      Rules.seq-Leaves _ _ _ _ _ (local (stop job.id) s) h
        (local-Kept p Stored (stop job.id) h s tt i)
        (λ h1 v s1 i1. (record { saved = i1.saved; draft = i1.draft; plain = i1.plain }, tt))

  flush_and_stop-Kept :
      (fuel : ℕ) (h : History p Stored) (s : Editor)
      → Inv p Stored s
      → Kept p Stored h (flush_and_stop fuel s)
  unfolding flush_and_stop set_leaving
  flush_and_stop-Kept fuel h s i =
      Rules.seq-Leaves _ _ _ _ _ (flush fuel s) h (flush-Kept p Stored platform fuel h s i)
        (λ h1 _ s1 i1.
          Rules.seq-Leaves _ _ _ _ _ (stop_running s1.job s1) h1 (stop_running-Kept s1.job h1 s1 i1)
            (λ h2 _ s2 i2. (record { saved = i2.saved; draft = i2.draft; plain = i2.plain }, tt)))

  pub leave-Kept :
      (fuel : ℕ) (h : History p Stored) (s : Editor)
      → Inv p Stored s
      → Kept p Stored h (leave fuel s)
  unfolding leave leave_now begin_leave end_leave
  leave-Kept fuel h s i =
      Rules.if-Kept _ _ _ s.departing (pure tt s) (leave_now fuel s) h (λ _. (i, tt))
        (λ _.
          try-Kept p Stored (λ _. pure tt) end_leave (flush_and_stop fuel (begin_leave s)) h
            (flush_and_stop-Kept fuel h (begin_leave s)
              (record { saved = i.saved; draft = i.draft; plain = i.plain }))
            (λ _ _ s1 i1. (i1, tt))
            (λ s1 i1. record { saved = i1.saved; draft = i1.draft; plain = i1.plain }))
