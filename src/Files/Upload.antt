-- ===== src/Files/Upload.antt =====
-- Sending files (`sendFiles`, web/atlas.js). The messages and the counts that it shows are not
-- modelled.
use mysyncfiles.Prelude.{
  ℕ, zero, suc, ◌+◌, ◌-◌, min, Bool, false, not, ◌&&◌, ◌||◌, Option, none, some, List, [], ◌∷◌,
  ◌++◌, Text, codes, is_any, has_unit, utf8_length, length, take, drop, ltb, leb, ◌==◌,
  if◌then◌else◌,
}
use mysyncfiles.Value.{Value, as_text, is_text, is_number, is_uuid, safe_nat, truthy}
use mysyncfiles.Exit
use mysyncfiles.Exit.{Error, other, code_is, Exit, ok, err, check}
use mysyncfiles.Prog.{
  ◌>>=◌, ◌>>◌, pure, throw, get_state, modify, request, of_exit, guard, when, try_catch,
  try_finally,
}
use mysyncfiles.Http.{failure, field, optional}
use mysyncfiles.Files.Reader.{Bytes}
use mysyncfiles.Files.State.{Session, Page, abort, is_aborted, is_some, lock, can_upload}
use mysyncfiles.Files.Calls.{
  write, create, put, commit, delete, sha, M, value_of, hash_of, authorize_upload,
}
use mysyncfiles.Files.Browse.{on_shown, set_toast}
use mysyncfiles.Files.Load.{load_current}

-- A `File` of the browser, whose content does not change while it is sent.
pub record LocalFile : Type 0 where
  pub name : Text
  pub content : Bytes

-- What one `sendFiles` holds: its controller, the epoch, the limits, and the folder.
pub record Sending : Type 0 where
  pub id : ℕ
  pub current : ℕ
  pub limit : ℕ
  pub chunk_bytes : ℕ
  pub destination : Text

-- `live()`, and no abort
unfoldable pub is_live : Sending → Page → Bool
is_live t s = t.current == s.epoch && is_some s.shown.session

unfoldable pub can_go_on : Sending → Page → Bool
unfolding is_live
can_go_on t s = is_live t s && not (is_aborted t.id s)

-- `check`
unfoldable pub check_live : Sending → M (Unit {0})
unfolding can_go_on
check_live t = do s ← get_state; guard (can_go_on t s) (failure "cancelled")

unfoldable pub path_in : Text → Text → Text
path_in [] name = name
path_in (c ∷ t) name = (c ∷ t) ++ 47 ∷ name

-- Whether a file may be sent, by its name, its path and its size.
unfoldable pub may_send : Sending → LocalFile → Bool
unfolding path_in
may_send t file =
    ltb 0 (length file.name)
    && not (has_unit 47 file.name || has_unit 92 file.name || has_unit 0 file.name)
    && not (is_any file.name ("." ∷ ".." ∷ ".mysync-conflicts" ∷ ".mysync-staging" ∷ []))
    && leb (utf8_length file.name) 255
    && leb (utf8_length (path_in t.destination file.name)) 4096
    && leb (length file.content) t.limit

unfoldable pub upload_id : Option Text → Exit Text
upload_id none = err (failure "invalid_response")
upload_id (some id) = if is_uuid id then ok id else err (failure "invalid_response")

-- The tests of the replies to the start, to a part, and to the commit.
unfoldable pub started_id : Value → Exit Text
unfolding upload_id
started_id v = Exit.◌>>=◌ (field "id" v) λ i.
    Exit.◌>>=◌ (upload_id (as_text i)) λ id.
      Exit.◌>>◌ (check (is_number (optional "offset" v) 0) (failure "invalid_response")) (ok id)

unfoldable pub part_check : Text → ℕ → Value → Exit (Unit {0})
part_check id end v =
    Exit.◌>>=◌ (field "id" v)
      λ i. check (is_text i id && is_number (optional "offset" v) end) (failure "invalid_response")

unfoldable pub commit_check : Text → Text → ℕ → Value → Exit (Unit {0})
commit_check path sha256 size v = Exit.◌>>=◌ (field "path" v) λ p.
    check
      (is_text p path
        && is_text (optional "sha256" v) sha256
        && is_number (optional "size" v) size
        && not (truthy (optional "deleted" v))
        && positive (safe_nat (optional "revision" v)))
      (failure "invalid_response")
  where
    positive : Option ℕ → Bool
    positive none = false
    positive (some n) = ltb 0 n

-- A round of the `while` loop, before the others.
unfoldable pub send_part : Sending → LocalFile → Text → ℕ → M (Unit {0}) → M (Unit {0})
unfolding check_live part_check value_of
send_part t file id offset others = do
  check_live t
  v ← of_exit (
      value_of
        (← request (
          put id offset
            (take (min t.chunk_bytes (length file.content - offset)) (drop offset file.content)))))
  of_exit (part_check id (min (offset + t.chunk_bytes) (length file.content)) v)
  others

-- The `while` loop, from an offset on, with as many rounds as the fuel.
unfoldable pub send_parts : ℕ → Sending → LocalFile → Text → ℕ → M (Unit {0})
unfolding send_part
send_parts zero t file id offset = if ltb offset (length file.content) then throw other else pure tt
send_parts (suc fuel) t file id offset =
    let others = send_parts fuel t file id (min (offset + t.chunk_bytes) (length file.content)) in
    if ltb offset (length file.content) then send_part t file id offset others else pure tt

unfoldable pub set_active : Option Text → Page → Page
set_active id s = record s { active_id = id }

-- After its parts: the upload is committed.
unfoldable pub commit_content : Sending → LocalFile → Text → Text → M (Unit {0})
unfolding check_live commit_check set_active path_in value_of
commit_content t file sha256 id = do
  check_live t
  w ← of_exit (value_of (← request (commit id)))
  of_exit (commit_check (path_in t.destination file.name) sha256 (length file.content) w)
  modify (set_active none)
  check_live t

-- After the digest: the upload is started, its parts are sent, and it is committed.
unfoldable pub send_content : Sending → LocalFile → Text → M (Unit {0})
unfolding check_live started_id set_active send_parts commit_content path_in value_of
send_content t file sha256 = do
  check_live t
  v ←
      of_exit (
        value_of
          (← request (create (path_in t.destination file.name) (length file.content) sha256)))
  id ← of_exit (started_id v)
  modify (set_active (some id))
  send_parts (length file.content) t file id 0
  commit_content t file sha256 id

unfoldable pub send_body : Sending → LocalFile → M (Unit {0})
unfolding send_content hash_of
send_body t file = do
  sha256 ← of_exit (hash_of (← request (sha file.content)))
  send_content t file sha256

-- The `catch` of a file: some errors end the whole sending.
unfoldable pub file_failed : Sending → Error → M (Unit {0})
unfolding is_live
file_failed t e = do
  s ← get_state
  if is_aborted t.id s
        || not (is_live t s)
        || code_is e "session_expired"
        || code_is e "authentication_refused"
        || code_is e "files_write_required"
      then throw e
      else pure tt

-- The `finally` of a file: an upload that is left open is deleted.
unfoldable pub drop_upload : Option Text → M (Unit {0})
drop_upload none = pure tt
drop_upload (some id) =
    try_catch (do _ ← of_exit (value_of (← request (delete id))); pure tt) (λ e. pure tt)

unfoldable pub end_file : Sending → M (Unit {0})
unfolding is_live drop_upload set_active
end_file t = do
  s ← get_state
  when (is_live t s) (drop_upload s.active_id)
  modify (set_active none)

unfoldable pub send_file : Sending → LocalFile → M (Unit {0})
unfolding send_body file_failed end_file
send_file t file = try_finally (try_catch (send_body t file) (file_failed t)) (end_file t)

-- The loop over the files; a file that may not be sent is passed over.
unfoldable pub send_each : Sending → List LocalFile → M (Unit {0})
unfolding check_live may_send send_file
send_each t [] = check_live t
send_each t (file ∷ files) = do
  check_live t
  when (may_send t file) (send_file t file)
  send_each t files

unfoldable pub send_all : Sending → List LocalFile → M (Unit {0})
unfolding authorize_upload check_live send_each
send_all t files = do authorize_upload t.id write; check_live t; send_each t files

unfoldable pub fail_upload : Sending → Error → Page → Page
unfolding is_live lock
fail_upload t e s =
    if is_live t s && (code_is e "session_expired" || code_is e "authentication_refused")
    then lock (codes "expired") [] s
    else s

unfoldable pub end_upload : ℕ → Page → Page
end_upload id s = elim s.upload [
  | none ↦ s
  | some i ↦ if i == id then record s { upload = none } else s
]

unfoldable pub start_upload : Page → Page
start_upload s = record s {
  shown = record s.shown { drag_depth = 0 };
  upload = some s.fresh;
  fresh = s.fresh + 1;
}

-- The button that cancels the sending.
unfoldable pub cancel_upload : Page → Page
unfolding abort
cancel_upload s = record s { aborted = abort s.upload s.aborted }

-- The listing that is open is loaded again, unless one is under way or wanted.
unfoldable pub load_after : Sending → M (Unit {0})
unfolding is_live load_current
load_after t = do
  s ← get_state
  when (is_live t s && not (is_some s.listing) && not (is_some s.shown.retry_view)) load_current

unfoldable pub finish_sending : Sending → M (Unit {0})
unfolding end_upload load_after
finish_sending t = do modify (end_upload t.id); load_after t

unfoldable pub run_sending : Sending → List LocalFile → M (Unit {0})
unfolding start_upload send_all fail_upload finish_sending
run_sending t files = do
  modify start_upload
  try_finally (try_catch (send_all t files) (λ e. modify (fail_upload t e))) (finish_sending t)

unfoldable pub sending_of : Session → Text → Page → Sending
sending_of session destination s = record {
  id = s.fresh;
  current = s.epoch;
  limit = 268435456;
  chunk_bytes = session.chunk_bytes;
  destination = destination;
}

unfoldable pub with_session : Option Session → List LocalFile → Text → M (Unit {0})
unfolding run_sending sending_of
with_session none files destination s = pure tt s
with_session (some session) files destination s =
    run_sending (sending_of session destination s) files s

-- `sendFiles`: at most fifty files, when the page may send.
unfoldable pub send_files : Bool → Bool → List LocalFile → Text → M (Unit {0})
unfolding can_upload with_session on_shown set_toast
send_files status_page inert files destination s =
    if not (can_upload status_page inert s) || not (ltb 0 (length files))
    then pure tt s
    else if ltb 50 (length files)
    then pure tt (on_shown (set_toast []) s)
    else with_session s.shown.session files destination s
