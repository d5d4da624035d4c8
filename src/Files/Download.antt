-- ===== src/Files/Download.antt =====
-- Downloading a file (`download`, web/atlas.js).
use mysyncfiles.Prelude.{
  ℕ, zero, suc, ◌+◌, ◌-◌, min, not, ◌||◌, Option, none, some, [], ◌∷◌, codes, text_eq, length,
  replicate, ltb, ◌==◌, if◌then◌else◌,
}
use mysyncfiles.Exit.{Error, other}
use mysyncfiles.Prog.{
  ◌>>=◌, ◌>>◌, pure, throw, modify, request, of_exit, guard, try_catch, try_finally,
}
use mysyncfiles.Http.{failure}
use mysyncfiles.Files.Reader.{Bytes, set_at}
use mysyncfiles.Files.State.{Session, FileEntry, Page, abort, is_aborted, is_some, lock}
use mysyncfiles.Files.Calls.{
  get_chunk, sha, get_session, M, bytes_of, hash_of, value_of, is_refused,
}
use mysyncfiles.Files.Browse.{on_shown, set_toast, basename}

-- The loop, from an offset on, with as many rounds as the fuel. Each round but the last receives
-- `limit` bytes, and so the entry's size and one is enough for it.
unfoldable pub receive : ℕ → ℕ → FileEntry → Bytes → ℕ → M Bytes
unfolding set_at bytes_of on_shown set_toast
receive zero limit entry received offset = throw other
receive (suc fuel) limit entry received offset = do
  part ← of_exit (bytes_of (← request (get_chunk entry.path entry.revision offset)))
  guard (length part == min limit (entry.size - offset)) (failure "invalid_response")
  modify (on_shown (set_toast []))
  if ltb (offset + length part) entry.size
      then receive fuel limit entry (set_at received offset part) (offset + length part)
      else pure (set_at received offset part)

-- The page gives the browser the file, if nothing has ended the download.
unfoldable pub offer : ℕ → ℕ → FileEntry → Bytes → Page → Page
unfolding on_shown set_toast basename
offer id current entry received s =
    if is_aborted id s || not (current == s.epoch) || not (is_some s.shown.session)
    then s
    else record (on_shown (set_toast (basename entry.path)) s) {
      offered = (entry, received) ∷ s.offered;
    }

-- What follows the loop: the digest, and the session once more.
unfoldable pub finish_file : ℕ → ℕ → FileEntry → Bytes → M (Unit {0})
unfolding offer hash_of value_of
finish_file id current entry received = do
  digest ← of_exit (hash_of (← request (sha received)))
  guard (text_eq digest entry.sha256) (failure "integrity_failed")
  _ ← of_exit (value_of (← request get_session))
  modify (offer id current entry received)

unfoldable pub fetch_file : ℕ → ℕ → ℕ → FileEntry → M (Unit {0})
unfolding receive finish_file
fetch_file id current limit entry = do
  received ← receive (entry.size + 1) limit entry (replicate entry.size 0) 0
  finish_file id current entry received

-- The `catch` block: an access that was refused locks the page.
unfoldable pub fail_download : ℕ → Error → Page → Page
unfolding lock is_refused on_shown set_toast
fail_download current e s =
    if not (current == s.epoch) || not (is_some s.shown.session)
    then s
    else if is_refused e
    then lock (codes "expired") [] s
    else on_shown (set_toast []) s

-- `if (transfer === controller) transfer = undefined`
unfoldable pub end_transfer : ℕ → Page → Page
end_transfer id s = elim s.transfer [
  | none ↦ s
  | some i ↦ if i == id then record s { transfer = none } else s
]

unfoldable pub start_transfer : FileEntry → Page → Page
unfolding on_shown set_toast basename
start_transfer entry s = record (on_shown (set_toast (basename entry.path)) s) {
  transfer = some s.fresh;
  fresh = s.fresh + 1;
}

-- The button that cancels the download.
unfoldable pub cancel_download : Page → Page
unfolding abort
cancel_download s = record s { aborted = abort s.transfer s.aborted }

unfoldable pub download_with : Session → FileEntry → M (Unit {0})
unfolding start_transfer fetch_file fail_download end_transfer
download_with session entry s =
    (do
      modify (start_transfer entry)
      try_finally
          (try_catch (fetch_file s.fresh s.epoch session.chunk_bytes entry)
            (λ e. modify (fail_download s.epoch e)))
          (modify (end_transfer s.fresh)))
      s

unfoldable pub download_in : Option Session → FileEntry → M (Unit {0})
unfolding download_with on_shown set_toast
download_in none entry s = pure tt s
download_in (some session) entry s =
    if is_some s.upload || is_some s.transfer || ltb session.download_limit entry.size
    then pure tt (on_shown (set_toast []) s)
    else download_with session entry s

-- `download`: one file at a time, and none while files are sent or above the limit.
unfoldable pub download : FileEntry → M (Unit {0})
unfolding download_in
download entry s = download_in s.shown.session entry s
