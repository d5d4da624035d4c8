-- ===== src/Files/Folder.antt =====
-- Renaming and deleting a folder (web/atlas.js): the dialog, `editDirectory` and its submission. The
-- messages of the dialog are not modelled.
use mysyncfiles.Prelude.{
  ℕ, ◌+◌, Bool, true, false, not, ◌&&◌, ◌||◌, Option, none, some, [], Text, codes, ◌==◌,
  if◌then◌else◌,
}
use mysyncfiles.Value.{Value, undefined, as_text, is_null, safe_nat, truthy}
use mysyncfiles.Exit
use mysyncfiles.Exit.{Error, Exit, check, code_is}
use mysyncfiles.Prog.{
  ◌>>=◌, ◌>>◌, pure, get_state, modify, request, of_exit, guard, when, try_catch, try_finally,
}
use mysyncfiles.Http.{failure, field, optional}
use mysyncfiles.Files.State.{FolderAction, Shown, Page, abort, is_aborted, is_some, lock}
use mysyncfiles.Files.Calls.{M, manage, change, value_of, is_refused, authorize_upload}
use mysyncfiles.Files.Listing.{at_least, may_rename}
use mysyncfiles.Files.Load.{load_current}
use mysyncfiles.Files.Browse.{on_shown, set_toast, basename, directory_info, path_of}

unfoldable pub set_action : Option FolderAction → Shown → Shown
set_action a sh = record sh { folder_action = a }

-- `folderAction === operation`, for the operation that `id` names.
unfoldable pub is_action : ℕ → Option FolderAction → Bool
is_action id none = false
is_action id (some a) = a.id == id

unfoldable pub is_operation : ℕ → ℕ → Page → Bool
unfolding is_action
is_operation current id s = current == s.epoch && is_action id s.shown.folder_action

-- A change of the operation, which is only made while it is the page's.
unfoldable pub update :
    (FolderAction → FolderAction) → ℕ → Option FolderAction → Option FolderAction
update f id none = none
update f id (some a) = if a.id == id then some (f a) else some a

unfoldable pub on_action : (FolderAction → FolderAction) → ℕ → Page → Page
unfolding update set_action on_shown
on_action f id s = on_shown (set_action (update f id s.shown.folder_action)) s

unfoldable pub set_snapshot : Value → FolderAction → FolderAction
set_snapshot v a = record a { snapshot = v }

unfoldable pub set_disabled : Bool → FolderAction → FolderAction
set_disabled b a = record a { disabled = b }

unfoldable pub set_sent : Bool → FolderAction → FolderAction
set_sent b a = record a { sent = b }

unfoldable pub is_sent : Option FolderAction → Bool
is_sent none = false
is_sent (some a) = a.sent

-- `closeFolderDialog`
unfoldable pub close_folder : Page → Page
unfolding is_sent abort set_action on_shown
close_folder s =
    if is_sent s.shown.folder_action
    then s
    else record (on_shown (set_action none) s) { aborted = abort s.folder_request s.aborted }

-- The operation is named by the controller of its first request.
unfoldable pub begin_edit : Value → Bool → Page → Page
unfolding set_action on_shown path_of
begin_edit v rename s =
    record (on_shown
      (set_action (
        some (record {
          id = s.fresh;
          path = path_of v;
          rename = rename;
          snapshot = undefined;
          sent = false;
          disabled = true;
        })))
      s) { folder_request = some s.fresh; fresh = s.fresh + 1 }

-- With its snapshot the operation can be confirmed; a folder that is too large has none.
unfoldable pub take_snapshot : ℕ → Value → M (Unit {0})
unfolding on_action set_snapshot set_disabled
take_snapshot id snapshot = do
  modify (on_action (set_snapshot snapshot) id)
  guard (not (is_null snapshot)) (failure "directory_too_large")
  modify (on_action (set_disabled false) id)

unfoldable pub ask_snapshot : ℕ → ℕ → Text → M (Unit {0})
unfolding directory_info is_operation take_snapshot
ask_snapshot current id path = do
  info ← directory_info path
  s ← get_state
  when (is_operation current id s) (take_snapshot id (optional "snapshot" info))

unfoldable pub fail_edit : ℕ → ℕ → Error → Page → Page
unfolding is_operation lock
fail_edit current id e s =
    if is_operation current id s && not (is_aborted id s) && code_is e "session_expired"
    then lock (codes "expired") [] s
    else s

unfoldable pub edit_with : Value → Bool → M (Unit {0})
unfolding begin_edit ask_snapshot fail_edit path_of
edit_with v rename s =
    (do
      modify (begin_edit v rename)
      try_catch (ask_snapshot s.epoch s.fresh (path_of v))
          (λ e. modify (fail_edit s.epoch s.fresh e)))
      s

-- `editDirectory`: one operation at a time, and none beside a transfer.
unfoldable pub edit_directory : Value → Bool → M (Unit {0})
unfolding edit_with on_shown set_toast
edit_directory v rename s =
    if not (is_some s.shown.session)
      || is_some s.shown.folder_action
      || is_some s.upload
      || is_some s.transfer
    then pure tt (on_shown (set_toast []) s)
    else edit_with v rename s

-- The test of the answer to a change.
unfoldable pub change_check : Value → Exit (Unit {0})
unfolding at_least
change_check v = Exit.◌>>=◌ (field "path" v) λ p.
    check (is_some (as_text p) && at_least 1 (safe_nat (optional "file_count" v)))
      (failure "invalid_response")

unfoldable pub name_sent : FolderAction → Text → Option Text
name_sent a name = if a.rename then some name else none

-- The dialog closes, and the listing is loaded again.
unfoldable pub finish_change : M (Unit {0})
unfolding on_shown set_action set_toast
finish_change = do
  modify (on_shown (set_action none))
  modify (on_shown (set_toast []))
  load_current

unfoldable pub send_change : ℕ → FolderAction → Text → M (Unit {0})
unfolding on_action set_sent change_check value_of is_operation finish_change name_sent
send_change current a name = do
  modify (on_action (set_sent true) a.id)
  v ← of_exit (value_of (← request (change a.path a.snapshot (name_sent a name))))
  of_exit (change_check v)
  s ← get_state
  when (is_operation current a.id s) finish_change

unfoldable pub ask_change : ℕ → ℕ → FolderAction → Text → M (Unit {0})
unfolding authorize_upload is_operation send_change
ask_change signal current a name = do
  authorize_upload signal manage
  s ← get_state
  when (is_operation current a.id s && not (is_aborted signal s)) (send_change current a name)

-- The `catch` block: the operation may be confirmed again if it was not sent, or its name was refused.
unfoldable pub may_retry : Error → FolderAction → FolderAction
may_retry e a = record a {
  disabled = a.sent && not (code_is e "directory_exists" || code_is e "invalid_name");
}

unfoldable pub fail_change : ℕ → ℕ → ℕ → Error → Page → Page
unfolding is_operation is_refused lock on_action may_retry
fail_change signal current id e s =
    if not (is_operation current id s) || is_aborted signal s
    then s
    else if is_refused e
    then lock (codes "expired") [] s
    else on_action (may_retry e) id s

unfoldable pub begin_submit : ℕ → Page → Page
unfolding on_action set_disabled
begin_submit id s = record (on_action (set_disabled true) id s) {
  folder_request = some s.fresh;
  fresh = s.fresh + 1;
}

unfoldable pub submit_with : FolderAction → Text → M (Unit {0})
unfolding begin_submit ask_change fail_change on_action set_sent
submit_with a name s =
    (do
      modify (begin_submit a.id)
      try_finally
          (try_catch (ask_change s.fresh s.epoch a name)
            (λ e. modify (fail_change s.fresh s.epoch a.id e)))
          (modify (on_action (set_sent false) a.id)))
      s

-- Whether the form is submitted: the operation has its snapshot and a session, and the name is a new
-- and valid one if the folder is renamed.
unfoldable pub may_submit : FolderAction → Text → Page → Bool
unfolding basename
may_submit a name s =
    truthy a.snapshot
    && not a.disabled
    && is_some s.shown.session
    && (not a.rename || may_rename (basename a.path) name)

-- The handler of the form, with the name that is typed.
unfoldable pub submit : Text → M (Unit {0})
unfolding may_submit submit_with
submit name s = elim s.shown.folder_action [
  | none ↦ pure tt s
  | some a ↦ if may_submit a name s then submit_with a name s else pure tt s
]
