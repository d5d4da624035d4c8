-- ===== src/Http.antt =====
-- What a call of `request` gives to the handler that awaits it (web/atlas.js): the status and the
-- parsed body of an answer, or the error that it throws.
use mysyncfiles.Prelude.{ℕ, Bool, none, some, leb, ltb, ◌&&◌, codes, String}
use mysyncfiles.Value.{Value, get, str, undefined}
use mysyncfiles.Exit.{Error, code, other, Exit, ok, err}

pub data Answer : Type 0 where
  reply : ℕ → Value → Answer
  failed : Error → Answer

abbrev pub failure : String → Error
failure s = code (codes s)

-- The error that `new Failure(v)` gives to a handler's tests.
unfoldable pub error_of : Value → Error
error_of (str t) = code t
error_of _ = other

-- `response.ok`
unfoldable pub is_ok : ℕ → Bool
is_ok status = leb 200 status && ltb status 300

-- `v.key` in a handler: a TypeError where `v` is `null`.
unfoldable pub field : String → Value → Exit Value
field key v = elim (get key v) [ none ↦ err other | some x ↦ ok x ]

-- `v?.key`
unfoldable pub optional : String → Value → Value
optional key v = elim (get key v) [ none ↦ undefined | some x ↦ x ]

-- `await request(…)`, for a call that is not local: the body, or what it throws.
unfoldable pub body_of : Answer → Exit Value
body_of (reply status v) = ok v
body_of (failed e) = err e
