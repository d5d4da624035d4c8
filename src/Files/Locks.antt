-- ===== src/Files/Locks.antt =====
-- Sessions that are accepted, and what a lock leaves.
use mysyncfiles.Prelude.{
  ℕ, ◌+◌, ◌*◌, ◌≡◌, ◌≤◌, ◌<◌, refl, ap, ◌∙◌, false, Bool, ◌||◌, Option, none, some, List, Text,
  length, any, ◌==◌, arith,
}
use mysyncfiles.Value.{Value, as_text, is_number}
use mysyncfiles.Exit.{ok}
use mysyncfiles.Http.{field, optional}
use mysyncfiles.Files.State.{
  Session, Page, abort, is_aborted, lock, max_session, session_of, remaining_of, natural_of,
}

-- Whether a request is the one that a variable of the page has.
abbrev pub is_of : ℕ → Option ℕ → Bool
is_of i none = false
is_of i (some id) = id == i

-- After a lock a request has an aborted signal exactly if it had one, or if it was the listing's, the
-- verification's, the download's, the upload's or the folder's; no listing is under way, and an answer
-- that was awaited is stale.
pub record IsStopped (i : ℕ) (s t : Page) : Type 0 where
  pub stale : s.epoch < t.epoch
  pub idle : t.listing ≡ none
  pub cut : is_aborted i t ≡ (
      is_of i s.folder_request
      || (is_of i s.upload
          || (is_of i s.transfer
              || (is_of i s.verification || (is_of i s.listing || is_aborted i s)))))

any-abort :
    (i : ℕ) (o : Option ℕ) (ids : List ℕ)
    → any (λ j. j == i) (abort o ids) ≡ (is_of i o || any (λ j. j == i) ids)
unfolding abort
any-abort i none ids = refl
any-abort i (some id) ids = refl

-- A lock begins a new epoch, forgets the listing under way, and aborts the requests of the listing, of
-- the verification, of the download, of the upload and of the folder's dialog, if they are under way,
-- and no others.
pub lock-IsStopped :
    (state message : Text) (i : ℕ) (s : Page) → IsStopped i s (lock state message s)
unfolding lock is_aborted
lock-IsStopped state message i s = record {
  stale = omega arith;
  idle = refl;
  cut =
      any-abort i s.folder_request _
      ∙ ap (λ b. is_of i s.folder_request || b)
          (any-abort i s.upload _
            ∙ ap (λ b. is_of i s.upload || b)
                (any-abort i s.transfer _
                  ∙ ap (λ b. is_of i s.transfer || b)
                      (any-abort i s.verification _
                        ∙ ap (λ b. is_of i s.verification || b)
                            (any-abort i s.listing s.aborted))));
}

-- What is known of a session that is accepted at `now`: its limits are those that the page is written
-- for, and its timer locks the page within half an hour, and no later than the session ends.
pub record IsAcceptable (now : ℕ) (v : Value) (session : Session) : Type 0 where
  pub named : as_text (optional "device_name" v) ≡ some session.device_name
  pub short_name : length session.device_name ≤ 512
  pub chunks : session.chunk_bytes ≡ 8388608
  pub downloads : session.download_limit ≡ 268435456
  pub some_time : 0 < session.remaining
  pub half_hour : session.remaining ≤ max_session
  pub in_time : now + session.remaining ≤ session.expires_at * 1000

remaining_of-in_time :
    (now : ℕ) (e : Value)
    → 0 < remaining_of now e
    → (remaining_of now e ≤ max_session) × (now + remaining_of now e ≤ natural_of e * 1000)
unfolding remaining_of natural_of
remaining_of-in_time now e h = ground arith

-- A session that `acceptSession` accepts is acceptable.
pub session_of-IsAcceptable :
    (now : ℕ) (v : Value) (session : Session)
    → session_of now v ≡ ok session
    → IsAcceptable now v session
unfolding session_of field optional remaining_of natural_of is_number
session_of-IsAcceptable now v session h = ground arith
