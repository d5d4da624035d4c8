-- ===== src/Editor/Run.antt =====
-- Running the file on this computer: `local`, `detect`, `render`, `poll`, the run button, `leave`.
use mysyncfiles.Prelude.{
  ℕ, Bool, true, false, not, ◌&&◌, ◌||◌, Option, none, some, Text, ends_with, if◌then◌else◌,
}
use mysyncfiles.Value.{Value, truthy, digest_text}
use mysyncfiles.Exit.{other, Exit, ok, err}
use mysyncfiles.Prog.{
  ◌>>=◌, ◌>>◌, pure, get_state, modify, request, of_exit, when, try_catch, try_finally,
}
use mysyncfiles.Http.{Answer, reply, failed, failure, error_of, is_ok, field, body_of}
use mysyncfiles.Editor.State.{Entry, Job, Editor, is_some, dirty, controls}
use mysyncfiles.Editor.Calls.{
  run, Operation, tools, start, poll, stop, post_ticket, bridge_editor, M,
}
use mysyncfiles.Editor.Checks.{valid}
use mysyncfiles.Editor.Reports.{tools_check, report_of}
use mysyncfiles.Editor.Save.{flush}
use mysyncfiles.Editor.Open.{authorize}

-- The body of the bridge's reply, or what is thrown for a status that is not ok.
unfoldable pub local_body : Answer → Exit Value
local_body (failed e) = err e
local_body (reply status v) = if is_ok status then ok v else refused (field "error" v)
  where
    refused : Exit Value → Exit Value
    refused (ok x) = if truthy x then err (error_of x) else err (failure "runner_failed")
    refused (err e) = err e

unfoldable pub local : Operation → M Value
unfolding local_body
local operation = do
  v ← of_exit (body_of (← request (post_ticket operation)))
  t ← of_exit (field "ticket" v)
  ticket ← of_exit (valid (digest_text t))
  of_exit (local_body (← request (bridge_editor ticket)))

unfoldable pub begin_detect : Editor → Editor
unfolding controls
begin_detect s = controls (record s { detecting = true; ready = false })

unfoldable pub end_detect : Editor → Editor
unfolding controls
end_detect s = controls (record s { detecting = false })

unfoldable pub set_ready : Editor → Editor
set_ready s = record s { ready = true }

unfoldable pub detect_tools : M (Unit {0})
unfolding authorize local tools_check set_ready
detect_tools = do
  authorize run
  v ← local tools
  s ← get_state
  of_exit (tools_check (ends_with s.path ".py") v)
  modify set_ready

unfoldable pub detect_anew : M (Unit {0})
unfolding begin_detect end_detect detect_tools
detect_anew = do
  modify begin_detect
  try_finally (try_catch detect_tools (λ e. pure tt)) (modify end_detect)

unfoldable pub detect : M (Unit {0})
unfolding detect_anew
detect s = if s.detecting || is_some s.job then pure tt s else detect_anew s

unfoldable pub end_job : Editor → Editor
unfolding controls
end_job s = controls (record s { job = none; polling = false })

-- `render(value); poll();`
unfoldable pub render : Value → M (Unit {0})
unfolding report_of end_job
render v = do
  s ← get_state
  going ← of_exit (report_of s.job v)
  when (not going) (modify end_job)
  modify (λ s. record s { polling = is_some s.job })

unfoldable pub lose_job : Editor → Editor
unfolding controls
lose_job s = controls (record s { job = none; ready = false; polling = false })

unfoldable pub job_id : Option Job → Exit Text
job_id none = err other
job_id (some job) = ok job.id

unfoldable pub ask_poll : M (Unit {0})
unfolding local render job_id
ask_poll = do
  modify (λ s. record s { polling = false })
  s ← get_state
  id ← of_exit (job_id s.job)
  v ← local (poll id)
  render v

-- The timer of `poll`, when it fires.
unfoldable pub poll_job : M (Unit {0})
unfolding ask_poll lose_job
poll_job = try_catch ask_poll (λ e. modify lose_job)

unfoldable pub ask_stop : Job → M (Unit {0})
unfolding local render
ask_stop job = do v ← local (stop job.id); render v

unfoldable pub stop_job : Job → M (Unit {0})
unfolding ask_stop lose_job
stop_job job = try_catch (ask_stop job) (λ e. modify lose_job)

unfoldable pub entry_of : Option Entry → Exit Entry
entry_of none = err other
entry_of (some e) = ok e

unfoldable pub begin_start : Editor → Editor
unfolding controls
begin_start s = controls (record s { starting = true })

unfoldable pub end_start : Editor → Editor
unfolding controls
end_start s = controls (record s { starting = false })

unfoldable pub set_job : Text → Text → Editor → Editor
set_job id sha256 s = record s {
  last_run_text = some s.value;
  cleared = false;
  job = some (record { id = id; sha256 = sha256 });
}

-- After the flush: the job is named, and its start is asked for. `id` is `crypto.randomUUID()`.
unfoldable pub start_job : Text → M (Unit {0})
unfolding entry_of set_job local render
start_job id = do
  s ← get_state
  e ← of_exit (entry_of s.entry)
  modify (set_job id e.sha256)
  v ← local (start s.path e.revision e.sha256 id)
  render v

unfoldable pub flush_and_start : ℕ → Text → M (Unit {0})
unfolding flush start_job
flush_and_start fuel id = do flush fuel; start_job id

unfoldable pub drop_job : Editor → Editor
drop_job s = record s { job = none }

unfoldable pub start_run : ℕ → Text → M (Unit {0})
unfolding begin_start flush_and_start drop_job end_start
start_run fuel id = do
  modify begin_start
  try_finally (try_catch (flush_and_start fuel id) (λ e. modify drop_job)) (modify end_start)

unfoldable pub clicked : Option Job → ℕ → Text → M (Unit {0})
unfolding stop_job start_run
clicked (some job) fuel id s = stop_job job s
clicked none fuel id s = if not s.ready || s.starting then pure tt s else start_run fuel id s

-- The handler of the run button.
unfoldable pub run_clicked : ℕ → Text → M (Unit {0})
unfolding clicked
run_clicked fuel id s = clicked s.job fuel id s

unfoldable pub begin_leave : Editor → Editor
unfolding controls
begin_leave s = controls (record s { departing = true })

unfoldable pub end_leave : Editor → Editor
unfolding controls
end_leave s = controls (record s { departing = false })

unfoldable pub stop_running : Option Job → M (Unit {0})
unfolding local
stop_running none = pure tt
stop_running (some job) = do
  _ ← local (stop job.id)
  modify (λ s. record s { job = none; polling = false })

unfoldable pub set_leaving : Editor → Editor
set_leaving s = record s { leaving = true }

unfoldable pub flush_and_stop : ℕ → M (Unit {0})
unfolding flush stop_running set_leaving
flush_and_stop fuel = do flush fuel; s ← get_state; stop_running s.job; modify set_leaving

unfoldable pub leave_now : ℕ → M (Unit {0})
unfolding begin_leave flush_and_stop end_leave
leave_now fuel = do
  modify begin_leave
  try_finally (try_catch (flush_and_stop fuel) (λ e. pure tt)) (modify end_leave)

-- `leave`. The page that it goes to, or the logout that it clicks, is not modelled.
unfoldable pub leave : ℕ → M (Unit {0})
unfolding leave_now
leave fuel s = if s.departing then pure tt s else leave_now fuel s

-- The handler of `beforeunload`: whether the browser asks before it leaves the page.
unfoldable pub unload_asks : Editor → Bool
unfolding dirty
unload_asks s = not s.leaving && (dirty s || is_some s.saving || s.starting || is_some s.job)
