-- ===== src/Editor/Runs.antt =====
-- Detecting the tools, polling and running, and the invariant of the editor.
use mysyncfiles.Prelude.{ℕ, false, not, ◌||◌, Text, ends_with}
use mysyncfiles.Value.{Value, digest_text}
use mysyncfiles.Prog.{modify, pure, when}
use mysyncfiles.Prog.Rules
use mysyncfiles.Http.{body_of, field}
use mysyncfiles.Editor.State.{Job, Editor, is_some}
use mysyncfiles.Editor.Calls.{Operation, tools, poll, stop, post_ticket, run}
use mysyncfiles.Editor.Checks.{valid}
use mysyncfiles.Editor.Reports.{tools_check, report_of}
use mysyncfiles.Editor.Open.{authorize}
use mysyncfiles.Editor.Run.{
  local_body, local, begin_detect, end_detect, set_ready, detect_tools, detect, end_job, render,
  lose_job, job_id, ask_poll, poll_job, ask_stop, stop_job, detect_anew,
}
use mysyncfiles.Editor.Invariant.{Platform, Sends, Inv}
use mysyncfiles.Editor.Saves.{History, Kept, done-Kept, try-Kept}
use mysyncfiles.Editor.Opens.{authorize-Kept}

module _ (p : Platform) (Stored : ℕ → Text → Type 0) where
  pub local-Kept :
      (operation : Operation) (h : History p Stored) (s : Editor)
      → Sends p Stored (post_ticket operation) s
      → Inv p Stored s
      → Kept p Stored h (local operation s)
  unfolding local valid
  local-Kept operation h s sends i = (
    (i, sends),
    λ r s1 _ i1. Rules.of_exit-Leaves _ _ _ _ _ s1 i1 (body_of r) _ λ v _.
        Rules.of_exit-Leaves _ _ _ _ _ s1 i1 (field "ticket" v) _ λ t _.
          Rules.of_exit-Leaves _ _ _ _ _ s1 i1 (valid (digest_text t)) _
            λ ticket _. ((i1, tt), λ a s2 _ i2. done-Kept p Stored (local_body a) h s2 i2),
  )

  pub render-Kept :
      (v : Value) (h : History p Stored) (s : Editor)
      → Inv p Stored s
      → Kept p Stored h (render v s)
  unfolding render end_job
  render-Kept v h s i = Rules.of_exit-Leaves _ _ _ _ h s i (report_of s.job v) _ λ going _.
      Rules.seq-Leaves _ _ _ _ _ (when (not going) (modify end_job) s) h
        (Rules.when-Kept _ _ _ (not going) (modify end_job) h s i
          (λ _. (record { saved = i.saved; draft = i.draft; plain = i.plain }, tt)))
        (λ _ _ s1 i1. (record { saved = i1.saved; draft = i1.draft; plain = i1.plain }, tt))

  -- Changes of the state that leave the file, the draft and the text alone.
  begin_detect-Inv : (s : Editor) → Inv p Stored s → Inv p Stored (begin_detect s)
  unfolding begin_detect
  begin_detect-Inv s i = record { saved = i.saved; draft = i.draft; plain = i.plain }

  end_detect-Inv : (s : Editor) → Inv p Stored s → Inv p Stored (end_detect s)
  unfolding end_detect
  end_detect-Inv s i = record { saved = i.saved; draft = i.draft; plain = i.plain }

  set_ready-Inv : (s : Editor) → Inv p Stored s → Inv p Stored (set_ready s)
  unfolding set_ready
  set_ready-Inv s i = record { saved = i.saved; draft = i.draft; plain = i.plain }

  lose_job-Inv : (s : Editor) → Inv p Stored s → Inv p Stored (lose_job s)
  unfolding lose_job
  lose_job-Inv s i = record { saved = i.saved; draft = i.draft; plain = i.plain }

  detect_tools-Kept :
      (h : History p Stored) (s : Editor) → Inv p Stored s → Kept p Stored h (detect_tools s)
  unfolding detect_tools
  detect_tools-Kept h s i =
      Rules.seq-Leaves _ _ _ _ _ (authorize run s) h (authorize-Kept p Stored run h s i)
        (λ h1 _ s1 i1.
          Rules.seq-Leaves _ _ _ _ _ (local tools s1) h1 (local-Kept tools h1 s1 tt i1)
            (λ h2 v s2 i2.
              Rules.of_exit-Leaves _ _ _ _ h2 s2 i2 (tools_check (ends_with s2.path ".py") v) _
                (λ _ _. (set_ready-Inv s2 i2, tt))))

  pub detect-Kept :
      (h : History p Stored) (s : Editor) → Inv p Stored s → Kept p Stored h (detect s)
  unfolding detect detect_anew
  detect-Kept h s i =
      Rules.if-Kept _ _ _ (s.detecting || is_some s.job) (pure tt s) (detect_anew s) h
        (λ _. (i, tt))
        (λ _.
          try-Kept p Stored (λ _. pure tt) end_detect (detect_tools (begin_detect s)) h
            (detect_tools-Kept h (begin_detect s) (begin_detect-Inv s i)) (λ _ _ s1 i1. (i1, tt))
            end_detect-Inv)

  ask_poll-Kept :
      (h : History p Stored) (s : Editor) → Inv p Stored s → Kept p Stored h (ask_poll s)
  unfolding ask_poll
  ask_poll-Kept h s i =
      let s0 = record s { polling = false } in
      let i0 : Inv p Stored s0 = record { saved = i.saved; draft = i.draft; plain = i.plain } in
      Rules.of_exit-Leaves _ _ _ _ h s0 i0 (job_id s.job) _ λ id _.
        Rules.seq-Leaves _ _ _ _ _ (local (poll id) s0) h (local-Kept (poll id) h s0 tt i0)
          (λ h1 v s1 i1. render-Kept v h1 s1 i1)

  pub poll_job-Kept :
      (h : History p Stored) (s : Editor) → Inv p Stored s → Kept p Stored h (poll_job s)
  unfolding poll_job
  poll_job-Kept h s i =
      Rules.catch-Kept _ _ _ _ (ask_poll s) h (ask_poll-Kept h s i)
        (λ _ _ s1 i1. (lose_job-Inv s1 i1, tt))

  pub stop_job-Kept :
      (job : Job) (h : History p Stored) (s : Editor)
      → Inv p Stored s
      → Kept p Stored h (stop_job job s)
  unfolding stop_job ask_stop
  stop_job-Kept job h s i =
      Rules.catch-Kept _ _ _ _ (ask_stop job s) h
        (Rules.seq-Leaves _ _ _ _ _ (local (stop job.id) s) h (local-Kept (stop job.id) h s tt i)
          (λ h1 v s1 i1. render-Kept v h1 s1 i1))
        (λ _ _ s1 i1. (lose_job-Inv s1 i1, tt))
