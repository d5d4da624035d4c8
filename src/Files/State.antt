-- ===== src/Files/State.antt =====
-- The state of the files page (web/atlas.js), its session, and `lock`.
use mysyncfiles.Prelude.{
  ℕ, ◌+◌, ◌-◌, ◌*◌, min, Bool, true, false, not, ◌&&◌, Option, none, some, List, [], ◌∷◌, all, any,
  Text, length, ltb, leb, ◌==◌,
}
use mysyncfiles.Indent.{is_white, is_empty}
use mysyncfiles.Value.{Value, num, pos, is_safe_integer, is_number, as_text, truthy}
use mysyncfiles.Exit.{Exit, ok, err, ◌>>=◌, ◌>>◌, check}
use mysyncfiles.Http.{failure, field, optional}
use mysyncfiles.Files.Reader.{Bytes}

-- `remaining` is the delay in milliseconds after which the session's timer locks the page.
pub record Session : Type 0 where
  pub expires_at : ℕ
  pub device_name : Text
  pub chunk_bytes : ℕ
  pub download_limit : ℕ
  pub upload_allowed : Bool
  pub manage_allowed : Bool
  pub remaining : ℕ

-- A file of the listing.
pub record FileEntry : Type 0 where
  pub path : Text
  pub revision : ℕ
  pub size : ℕ
  pub sha256 : Text

pub record View : Type 0 where
  pub directory : Text
  pub search : Text
  pub page_index : ℕ
  pub cursors : List Text

-- What the server is asked for a listing; a view whose page has no cursor asks for none.
pub record Query : Type 0 where
  pub directory : Text
  pub search : Text
  pub after : Option Text

-- `folderAction`: the object, which `id` tells from another, and whether its confirmation is disabled.
-- Its snapshot is `undefined` before the folder's properties have come.
pub record FolderAction : Type 0 where
  pub id : ℕ
  pub path : Text
  pub rename : Bool
  pub snapshot : Value
  pub sent : Bool
  pub disabled : Bool

-- What the page has opened beside itself, or in its place.
pub data Visit : Type 0 where
  editor_of : Text → Text → Visit
  pdf_of : Text → ℕ → Visit

-- What the page shows, or can show again, of the account's files. Of the toast only the names are kept,
-- and of an upload's messages nothing; `search_timer` is the view that a pending search loads, and
-- `details_timer` the entry that pending details are those of. The overlay of a drag is shown while its
-- depth is not 0.
pub record Shown : Type 0 where
  pub session : Option Session
  pub view : View
  pub next : Option Text
  pub displayed_query : Option Query
  pub displayed_entries : List Value
  pub retry_view : Option View
  pub selected : Option Value
  pub details_open : Bool
  pub details_timer : Option Value
  pub menu_entry : Option Value
  pub folder_action : Option FolderAction
  pub picker : Option (Text × ℕ)
  pub search_text : Text
  pub search_timer : Option View
  pub toast : Text
  pub explorer_hidden : Bool
  pub access_state : Text
  pub access_message : Text
  pub busy : Bool
  pub drag_depth : ℕ
  pub drag_cancelled : Bool

-- A request's controller is a number, and `aborted` has those whose signal is aborted. `offered` has
-- the files that the browser was given to save, with their data; `active_id` is the variable of the
-- one `sendFiles` that can be under way, as `at_server` is of the one verification: its `stage` is
-- "server". `cancelled` has the verifications that the user has cancelled.
pub record Page : Type 0 where
  pub shown : Shown
  pub epoch : ℕ
  pub listing : Option ℕ
  pub verification : Option ℕ
  pub transfer : Option ℕ
  pub upload : Option ℕ
  pub folder_request : Option ℕ
  pub aborted : List ℕ
  pub fresh : ℕ
  pub offered : List (FileEntry × Bytes)
  pub active_id : Option Text
  pub at_server : Bool
  pub cancelled : List ℕ
  pub visits : List Visit

abbrev pub live_session : Page → Option Session
live_session s = s.shown.session

-- `controller?.abort()`
unfoldable pub abort : Option ℕ → List ℕ → List ℕ
abort none ids = ids
abort (some id) ids = id ∷ ids

unfoldable pub is_aborted : ℕ → Page → Bool
is_aborted id s = any (λ i. i == id) s.aborted

-- What `lock` leaves on the page. The access screen tells why it is locked.
unfoldable pub blank : Text → Text → Shown
blank state message = record {
  session = none;
  view = record { directory = []; search = []; page_index = 0; cursors = [] ∷ [] };
  next = none;
  displayed_query = none;
  displayed_entries = [];
  retry_view = none;
  selected = none;
  details_open = false;
  details_timer = none;
  menu_entry = none;
  folder_action = none;
  picker = none;
  search_text = [];
  search_timer = none;
  toast = [];
  explorer_hidden = true;
  access_state = state;
  access_message = message;
  busy = false;
  drag_depth = 0;
  drag_cancelled = false;
}

-- `lock`, but for the editor's.
unfoldable pub lock : Text → Text → Page → Page
unfolding abort blank
lock state message s = record s {
  shown = blank state message;
  epoch = s.epoch + 1;
  listing = none;
  aborted =
      abort s.folder_request
        (abort s.upload (abort s.transfer (abort s.verification (abort s.listing s.aborted))));
}

abbrev pub max_session : ℕ
max_session = 1800000

-- The delay until the session ends, in milliseconds; `now` is `Date.now()`.
unfoldable pub remaining_of : ℕ → Value → ℕ
remaining_of now (num (pos n)) = min max_session (n * 1000 - now)
remaining_of now _ = 0

unfoldable pub natural_of : Value → ℕ
natural_of (num (pos n)) = n
natural_of _ = 0

-- The test of `acceptSession`, with the session that it accepts.
unfoldable pub session_of : ℕ → Value → Exit Session
unfolding remaining_of natural_of
session_of now v = do
  e ← field "expires_at" v
  device ← named (as_text (optional "device_name" v))
  check
      (is_safe_integer e
        && leb (length device) 512
        && is_number (optional "chunk_bytes" v) 8388608
        && is_number (optional "download_limit" v) 268435456)
      (failure "invalid_response")
  check (ltb 0 (remaining_of now e)) (failure "session_expired")
  ok (record {
    expires_at = natural_of e;
    device_name = device;
    chunk_bytes = natural_of (optional "chunk_bytes" v);
    download_limit = natural_of (optional "download_limit" v);
    upload_allowed = is_number (optional "upload_limit" v) 268435456;
    manage_allowed = truthy (optional "manage_limit" v);
    remaining = remaining_of now e;
  })
  where
    named : Option Text → Exit Text
    named none = err (failure "invalid_response")
    named (some t) = ok t

-- `acceptSession`; `files_page` is false on the presence page and in the editor.
unfoldable pub accept_session : Bool → ℕ → Value → Page → Exit Page
unfolding session_of
accept_session files_page now v s = do
  session ← session_of now v
  ok (record s {
    shown = record s.shown {
      session = some session;
      explorer_hidden = s.shown.explorer_hidden && not files_page;
    };
  })

abbrev pub is_some {ℓ} : {A : Type ℓ} → Option A → Bool
is_some none = false
is_some (some a) = true

-- `canUpload`; `inert` is that of the file list, behind the details on a narrow screen.
unfoldable pub can_upload : Bool → Bool → Page → Bool
can_upload status_page inert s =
    not status_page
    && allowed s.shown.session
    && not (is_some s.upload)
    && not (is_some s.transfer)
    && is_some s.shown.displayed_query
    && is_empty s.shown.view.search
    && all is_white s.shown.search_text
    && not (is_some s.listing)
    && not (is_some s.shown.retry_view)
    && not inert
  where
    allowed : Option Session → Bool
    allowed none = false
    allowed (some session) = session.upload_allowed
