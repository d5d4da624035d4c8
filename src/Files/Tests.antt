-- ===== src/Files/Tests.antt =====
-- The theorems about the files page at a page with a session, a listing under way and a download.
use mysyncfiles.Prelude.{
  ◌+◌, ◌-◌, ℕ, ◌≡◌, ◌≤◌, ◌↔◌, refl, true, false, Memᴰ, none, some, [], ◌∷◌, codes, length, arith,
}
use mysyncfiles.Value.{
  Value, obj, prop, str, num, pos, end, get, is_number, is_safe_integer, as_text, truthy,
}
use mysyncfiles.Value.{null, arr, cons, nil}
use mysyncfiles.Exit.{ok}
use mysyncfiles.Http.{field, optional, is_ok}
use mysyncfiles.Files.Reader.{Stream, finished, chunk, bytes, request}
use mysyncfiles.Files.Bodies.{contents, bytes_lem, IsAccepted, request-IsAccepted}
use mysyncfiles.Files.Listing.{next_view, previous_view, cursor_of, query_of}
use mysyncfiles.Files.Pages.{HasCursor, next_view-previous_view}
use mysyncfiles.Files.State.{
  natural_of, View, Query, Session, FileEntry, Page, blank, lock, session_of,
}
use mysyncfiles.Files.Locks.{IsStopped, lock-IsStopped, IsAcceptable, session_of-IsAcceptable}
use mysyncfiles.Files.Download.{download}
use mysyncfiles.Files.Downloads.{Kept, download-Kept}
use mysyncfiles.Files.Fits.{AsksFor, IsBlank, IsLive, IsNamed, Apart, AreServed}
use mysyncfiles.Files.Reachable.{
  reached-IsBlank, reached-AreServed, reached-Apart, reached-entries_asked, reached-change_sent,
}
use mysyncfiles.Files.Samples.{
  folder, account, snapshot, asking, listed, locked_page, changing, uploading, computed,
  asking-IsReached, listed-IsReached, locked_page-IsReached, changing-IsReached,
  uploading-IsReached,
}
use mysyncfiles.Http.{reply}
use mysyncfiles.Prog.Serve.{serve}
use mysyncfiles.Files.Calls.{Call, Reply, raw, answer, get_chunk, sha, get_session}
use mysyncfiles.Files.Honest.{HasFile, IsSaved, download-IsSaved}
use mysyncfiles.Files.State.{is_aborted}
use mysyncfiles.Files.Reader.{Bytes}
use mysyncfiles.Prelude.{take, drop}
use mysyncfiles.Files.Upload.{Sending, LocalFile, send_file, send_parts}
use mysyncfiles.Files.Rounds.{send_parts-add_rounds}
use mysyncfiles.Files.Sent.{Safe, Any, send_file-Safe}

abbrev body : Stream
body = chunk (123 ∷ []) (chunk (125 ∷ []) finished)

bytes_lem_example :
    (bytes 4 (some body) ≡ ok (123 ∷ 125 ∷ []))
    ↔ (contents body ≡ some (123 ∷ 125 ∷ [])) × (length {A = ℕ} (123 ∷ 125 ∷ []) ≤ 4)
bytes_lem_example = bytes_lem 4 body (123 ∷ 125 ∷ [])

request-IsAccepted_example : IsAccepted (λ b. ok (obj end)) 4 200 (some body) (obj end)
unfolding request is_ok
request-IsAccepted_example =
    request-IsAccepted (λ b. ok (obj end)) false 4 200 (some body) (obj end) refl

abbrev opened : Value
opened = obj (
    prop "expires_at" (num (pos 2000)) (
      prop "device_name" (str (codes "pc"))
        (prop "chunk_bytes" (num (pos 8388608)) (prop "download_limit" (num (pos 268435456)) end))))

abbrev session : Session
session = record {
  expires_at = 2000;
  device_name = codes "pc";
  chunk_bytes = 8388608;
  download_limit = 268435456;
  upload_allowed = false;
  manage_allowed = false;
  remaining = 1000000;
}

session_of-IsAcceptable_example : IsAcceptable 1000000 opened session
unfolding session_of field optional get is_number is_safe_integer as_text truthy natural_of
session_of-IsAcceptable_example = session_of-IsAcceptable 1000000 opened session refl

abbrev page : Page
page = record {
  shown = record (blank [] []) { session = some session; explorer_hidden = false };
  epoch = 1;
  listing = some 0;
  verification = none;
  transfer = none;
  upload = none;
  folder_request = none;
  aborted = [];
  fresh = 1;
  offered = [];
  active_id = none;
  at_server = false;
  cancelled = [];
  visits = [];
}

lock-IsStopped_example : IsStopped 0 page (lock (codes "expired") [] page)
lock-IsStopped_example = lock-IsStopped (codes "expired") [] 0 page

-- The digest of a content is the content itself.
abbrev entry : FileEntry
entry = record { path = codes "a.txt"; revision = 3; size = 2; sha256 = 104 ∷ 105 ∷ [] }

download-Kept_example : Kept (λ b. b) [] (download entry page)
download-Kept_example = download-Kept (λ b. b) entry [] page tt

abbrev sending : Sending
sending = record {
  id = 0;
  current = 1;
  limit = 268435456;
  chunk_bytes = 2;
  destination = codes "docs";
}

abbrev local_file : LocalFile
local_file = record { name = codes "a.txt"; content = 1 ∷ 2 ∷ 3 ∷ [] }

send_file-Safe_example :
    Safe
      (λ b. b)
      sending
      local_file
      (Any (λ b. b) sending local_file)
      []
      (send_file sending local_file page)
send_file-Safe_example = send_file-Safe (λ b. b) sending local_file [] page

abbrev first_view : View
first_view = record { directory = codes "docs"; search = []; page_index = 0; cursors = [] ∷ [] }

next_view-previous_view_example :
    (cursor_of (next_view (codes "m") first_view) ≡ some (codes "m"))
    × (cursor_of (previous_view (next_view (codes "m") first_view)) ≡ cursor_of first_view)
    × ((previous_view (next_view (codes "m") first_view)).page_index ≡ 0)
    × HasCursor (next_view (codes "m") first_view)
next_view-previous_view_example = next_view-previous_view (codes "m") first_view (omega arith)

abbrev answered : Value
answered = obj (prop "entries" (arr (cons folder nil)) (prop "next" null end))

send_parts-add_rounds_example :
    send_parts (length local_file.content - 1) sending local_file (codes "id") 1
    ≡ send_parts (length local_file.content - 1 + 5) sending local_file (codes "id") 1
send_parts-add_rounds_example =
    send_parts-add_rounds sending local_file (codes "id") (omega arith) 1 5

reached-IsBlank_example : IsBlank locked_page.state.shown
unfolding computed
reached-IsBlank_example = reached-IsBlank account locked_page locked_page-IsReached refl

abbrev first_query : Query
first_query = record { directory = []; search = []; after = some [] }

reached-AreServed_example :
    (first_query ≡ query_of listed.state.shown.view)
    × AreServed account.listing first_query listed.state.shown.displayed_entries
unfolding computed
reached-AreServed_example = reached-AreServed account listed first_query listed-IsReached refl

reached-Apart_example : Apart uploading.state.upload uploading.state.transfer
unfolding computed
reached-Apart_example = reached-Apart account uploading uploading-IsReached

reached-entries_asked_example :
    IsLive asking.state × AsksFor first_query asking.state.shown.retry_view
unfolding computed
reached-entries_asked_example =
    reached-entries_asked account asking first_query asking.state asking-IsReached (Memᴰ.head refl)

reached-change_sent_example :
    IsLive changing.state
    × (truthy (str snapshot) ≡ true)
    × account.snapshot (codes "docs") (str snapshot)
    × IsNamed (codes "docs") (some (codes "notes"))
unfolding computed
reached-change_sent_example =
    reached-change_sent account changing (codes "docs") (str snapshot) (some (codes "notes"))
      changing.state changing-IsReached (Memᴰ.head refl)

-- A server that has a file of five bytes, for parts of two.
abbrev five : Bytes
five = 1 ∷ 2 ∷ 3 ∷ 4 ∷ 5 ∷ []

abbrev five_entry : FileEntry
five_entry = record { path = codes "docs/a.txt"; revision = 3; size = 5; sha256 = five }

unfoldable server : Call → Reply
server (get_chunk path revision offset) = raw (take 2 (drop offset five))
server (sha b) = answer (reply 200 (str b))
server get_session = answer (reply 200 null)
server _ = raw []

server-HasFile : HasFile server (λ b. b) 2 five five_entry
unfolding server
server-HasFile = record {
  parts = λ _. refl;
  digests = λ _. refl;
  session = null;
  opens = refl;
  same_size = refl;
  same_digest = refl;
}

abbrev small_parts : Session
small_parts = record session { chunk_bytes = 2 }

abbrev ready_page : Page
ready_page = record page { shown = record page.shown { session = some small_parts } }

download-IsSaved_example :
    ((serve server (download five_entry ready_page)).0 ≡ ok tt)
    × IsSaved server-HasFile
        (omega arith)
        ready_page
        (serve server (download five_entry ready_page)).1
unfolding is_aborted
download-IsSaved_example =
    download-IsSaved server-HasFile (omega arith) small_parts ready_page refl refl (omega arith)
      refl refl refl
