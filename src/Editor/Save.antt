-- ===== src/Editor/Save.antt =====
-- Saving: the timer of `schedule`, `persist` and `flush`.
use mysyncfiles.Prelude.{
  ℕ, zero, suc, false, Option, none, some, Text, utf8_length, leb, ◌==◌, if◌then◌else◌, text_eq,
}
use mysyncfiles.Exit.{Error, other, Exit, ok, err}
use mysyncfiles.Prog.{
  ◌>>=◌, ◌>>◌, pure, throw, get_state, modify, request, of_exit, guard, when, try_catch,
  try_finally,
}
use mysyncfiles.Http.{Answer, failure, body_of}
use mysyncfiles.Editor.State.{Entry, Save, Editor, is_some, dirty, content, controls, schedule}
use mysyncfiles.Editor.Calls.{tick, join, hash, put_file, M}
use mysyncfiles.Editor.Checks.{limit, digest_of, saved_entry}

-- What `persist` finds: a save under way, nothing to save, a reason not to save, or the save that
-- it starts.
pub data Plan : Type 0 where
  joined settled : Plan
  rejected : Error → Plan
  started : Save → Plan

unfoldable pub plan_dirty : Option Error → Entry → Editor → Plan
plan_dirty (some e) entry s = rejected e
plan_dirty none entry s =
    if s.edit_allowed
    then started
        (record { text = s.value; code = content s; base = entry.revision; current = s.generation })
    else rejected (failure "files_edit_required")

unfoldable pub plan_free : Option Entry → Editor → Plan
plan_free none s = settled
plan_free (some entry) s =
    if text_eq s.value s.saved_text then settled else plan_dirty s.save_error entry s

unfoldable pub plan_of : Option Save → Editor → Plan
plan_of (some _) s = joined
plan_of none s = plan_free s.entry s

unfoldable pub plan : Editor → Plan
unfolding plan_of plan_free plan_dirty
plan s = plan_of s.saving s

-- The state after an acknowledged save, and after one that failed.
unfoldable pub confirm : Entry → Text → Editor → Editor
confirm entry text s = record s { entry = some entry; saved_text = text; unconfirmed = none }

unfoldable pub fail_save : ℕ → Error → Editor → Editor
fail_save current e s = if current == s.generation then record s { save_error = some e } else s

unfoldable pub end_save : Editor → Editor
unfolding controls schedule
end_save s = schedule (controls (record s { saving = none }))

unfoldable pub note_draft : Save → Editor → Editor
note_draft sv s = record s {
  unconfirmed = some (record { text = sv.text; code = sv.code; base = sv.base });
}

-- The `try` block of `persist`.
unfoldable pub attempt : Save → M (Unit {0})
unfolding note_draft confirm
attempt sv = do
  guard (leb (utf8_length sv.code) limit) (failure "code_too_large")
  sha256 ← of_exit (digest_of (← request (hash sv.code)))
  modify (note_draft sv)
  s ← get_state
  v ← of_exit (body_of (← request (put_file s.path sv.base sv.code)))
  s' ← get_state
  guard (sv.current == s'.generation) (failure "session_expired")
  entry ← of_exit (saved_entry s'.path sha256 sv.base (utf8_length sv.code) v)
  modify (confirm entry sv.text)

-- The function that `persist` hands to `then`: it begins after a tick.
unfoldable pub save : Save → M (Unit {0})
unfolding attempt fail_save end_save
save sv = do
  _ ← request tick
  try_finally (try_catch (attempt sv) (λ e. do modify (fail_save sv.current e); throw e))
      (modify end_save)

unfoldable pub begin_save : Save → Editor → Editor
begin_save sv s = record s { saving = some sv }

-- What `await saving` gives.
unfoldable pub ended : Answer → Exit (Unit {0})
ended a = elim (body_of a) [ ok _ ↦ ok tt | err e ↦ err e ]

-- `await saving`
unfoldable pub await_save : M (Unit {0})
unfolding ended
await_save = do of_exit (ended (← request join))

-- `await persist()`. A save that it starts runs in its place; of another it awaits the end.
unfoldable pub carry_out : Plan → M (Unit {0})
unfolding save begin_save await_save
carry_out settled = do _ ← request tick; pure tt
carry_out (rejected e) = throw e
carry_out (started sv) = do modify (begin_save sv); save sv
carry_out joined = await_save

unfoldable pub persist : M (Unit {0})
unfolding plan carry_out
persist = do s ← get_state; carry_out (plan s)

-- The timer of `schedule`, when it fires: `persist().catch(() => {})`.
unfoldable pub fire : M (Unit {0})
unfolding persist
fire = do modify (λ s. record s { timer = false }); try_catch persist (λ e. pure tt)

-- `while (dirty()) await persist()`, with as many rounds as the fuel. The loop of the source goes on
-- as long as the user edits during each save; without fuel the program ends by an error of its own.
unfoldable pub flush_loop : ℕ → M (Unit {0})
unfolding dirty persist
flush_loop zero = throw other
flush_loop (suc fuel) = do s ← get_state; when (dirty s) (do persist; flush_loop fuel)

-- `if (saveError) throw saveError`
unfoldable pub throw_error : Option Error → M (Unit {0})
throw_error none = pure tt
throw_error (some e) = throw e

unfoldable pub flush : ℕ → M (Unit {0})
unfolding flush_loop await_save throw_error
flush fuel = do
  modify (λ s. record s { timer = false })
  s ← get_state
  when (is_some s.saving) await_save
  flush_loop fuel
  s' ← get_state
  throw_error s'.save_error
