-- ===== src/Editor/Checks.antt =====
-- The tests that the controller makes on the answers to its calls.
pub mod Laws
use mysyncfiles.Prelude.{
  ℕ, Bool, true, false, not, ◌&&◌, Option, none, some, Text, utf8_length, ltb, leb, ◌==◌, has_unit,
  text_eq, length,
}
use mysyncfiles.Value.{Value, str, safe_nat, is_text, is_number, truthy, as_text, digest_text}
use mysyncfiles.Exit.{Error, other, Exit, ok, err, ◌>>=◌, ◌>>◌, check}
use mysyncfiles.Http.{Answer, reply, failed, failure, field, optional}
use mysyncfiles.Editor.State.{Entry}

abbrev pub limit : ℕ
limit = 262144

-- `await digest(text)`
unfoldable pub digest_of : Answer → Exit Text
digest_of (reply _ (str h)) = ok h
digest_of (reply _ _) = err other
digest_of (failed e) = err e

-- A value that a test has found, or `invalid_response`.
unfoldable pub valid : {A : Type 0} → Option A → Exit A
valid none = err (failure "invalid_response")
valid (some a) = ok a

-- The test of the reply to a save (`persist`), with the version that it names.
unfoldable pub saved_entry : Text → Text → ℕ → ℕ → Value → Exit Entry
unfolding valid
saved_entry path sha256 base size v = do
  p ← field "path" v
  h ← field "sha256" v
  deleted ← field "deleted" v
  n ← field "size" v
  r ← field "revision" v
  revision ← valid (safe_nat r)
  check
      (is_text p path
        && is_text h sha256
        && not (truthy deleted)
        && is_number n size
        && ltb base revision)
      (failure "invalid_response")
  ok (record { path = path; revision = revision; sha256 = sha256 })

-- The test of `loadSource`, but for the digest: the revision, the content and `value.entry.sha256`.
unfoldable pub source_of : Text → Value → Exit (ℕ × Text × Value)
unfolding valid
source_of path v = do
  e ← field "entry" v
  c ← field "content" v
  revision ← valid (safe_nat (optional "revision" e))
  text ← valid (as_text c)
  check
      (is_text (optional "path" e) path
        && not (truthy (optional "deleted" e))
        && leb 1 revision
        && leb (utf8_length text) limit
        && not (has_unit 0 text))
      (failure "invalid_response")
  ok (revision, text, optional "sha256" e)

-- The test of a challenge, with its identifier and its ticket.
unfoldable pub challenge_of : Value → Exit (Text × Text)
unfolding valid
challenge_of v = do
  i ← field "challenge_id" v
  t ← field "ticket" v
  id ← valid (digest_text i)
  ticket ← valid (as_text t)
  check (leb (length ticket) 2048) (failure "invalid_response")
  ok (id, ticket)
