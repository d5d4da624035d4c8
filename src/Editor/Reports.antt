-- ===== src/Editor/Reports.antt =====
-- The tests that the controller makes on the answers of the local client: its tools (`detect`) and
-- the state of a run (`render`).
use mysyncfiles.Prelude.{
  ℕ, ◌+◌, Bool, true, false, ◌&&◌, ◌||◌, Option, none, some, [], ◌∷◌, ◌++◌, Text, codes, is_any,
  utf8_length, leb, if◌then◌else◌,
}
use mysyncfiles.Value.{
  Value, str, bool, null, is_null, is_safe_integer, safe_nat, key_text, is_text, truthy, as_text,
}
use mysyncfiles.Exit
use mysyncfiles.Exit.{Error, other, Exit, ok, err, check}
use mysyncfiles.Http.{failure, field, optional}
use mysyncfiles.Editor.State.{Job, is_some}

unfoldable pub is_bool : Value → Bool
is_bool (bool b) = true
is_bool _ = false

is_compiler : Value → Bool
is_compiler null = true
is_compiler (str t) = is_any t ("gcc" ∷ "clang" ∷ [])
is_compiler _ = false

-- The test that `detect` makes of the tools; `python` is the language of the file.
unfoldable pub tools_check : Bool → Value → Exit (Unit {0})
unfolding is_bool is_compiler
tools_check python v = Exit.◌>>=◌ (field "python" v) λ _.
    let isolation = optional "isolation" v in
    let compiler = optional "compiler" v in
    Exit.◌>>◌
      (check (is_bool (optional "python" v) && is_bool isolation && is_compiler compiler)
        (failure "invalid_response"))
      (Exit.◌>>◌ (check (truthy isolation) (failure "isolation_unavailable")) (
        check (truthy (if python then optional "python" v else compiler)) (failure "tool_missing")))

-- The size of a phase of a run, if it is well formed.
phase_size : Value → Exit ℕ
phase_size p =
    if truthy p then sized (as_text (optional "stdout" p)) (as_text (optional "stderr" p)) else ok 0
  where
    nullable_duration : Value → Bool
    nullable_duration d = is_null d || is_some (safe_nat d)

    rest_ok : Bool
    rest_ok =
        (is_null (optional "exit_code" p) || is_safe_integer (optional "exit_code" p))
        && nullable_duration (optional "duration_ms" p)

    sized : Option Text → Option Text → Exit ℕ
    sized (some out) (some error) =
        if rest_ok then ok (utf8_length (out ++ error)) else err (failure "invalid_response")
    sized _ _ = err (failure "invalid_response")

-- `Object.hasOwn(states, value.state)`
unfoldable pub is_state : Value → Bool
is_state v = is_any (key_text v) (
    "running" ∷ "finished" ∷ "failed" ∷ "compile_failed" ∷ "stopped" ∷ "timeout" ∷ "output_limit"
    ∷ "authorization_expired" ∷ "isolation_failed" ∷ [])

-- The tests of `render`; what is left is whether the run goes on.
unfoldable pub report_of : Option Job → Value → Exit Bool
unfolding phase_size is_state
report_of none v = err (failure "invalid_response")
report_of (some job) v = Exit.◌>>=◌ (field "job_id" v) λ id.
    Exit.◌>>◌
      (check
        (is_text id job.id
          && is_text (optional "sha256" v) job.sha256
          && is_state (optional "state" v))
        (failure "invalid_response"))
      (Exit.◌>>=◌ (phase_size (optional "compilation" v)) λ a.
        Exit.◌>>=◌ (phase_size (optional "execution" v)) λ b.
          Exit.◌>>◌ (check (leb (a + b) 65536) (failure "invalid_response"))
            (ok (is_text (optional "state" v) (codes "running"))))
