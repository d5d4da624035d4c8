-- ===== src/Files/Menu.antt =====
-- The menu of an entry (web/atlas.js): `openMenu`, and what its actions do.
use mysyncfiles.Prelude.{
  ℕ, Bool, true, false, not, ◌&&◌, ◌||◌, Option, none, some, [], Text, ◌==◌, if◌then◌else◌,
}
use mysyncfiles.Value.{Value, end, obj, as_text, safe_nat}
use mysyncfiles.Exit.{Error, code_is}
use mysyncfiles.Prog.{◌>>=◌, pure, modify, request, of_exit, try_catch}
use mysyncfiles.Http.{optional}
use mysyncfiles.Files.State.{FileEntry, Shown, Page, is_some}
use mysyncfiles.Files.Calls.{M, copy_text, value_of}
use mysyncfiles.Files.Selection.{is_folder, close_menu, show_details, select_folder}
use mysyncfiles.Files.Browse.{
  on_shown, set_toast, navigate, directory_info, merge, path_of, is_selected, expire, open_editor,
}
use mysyncfiles.Files.Download.{download}
use mysyncfiles.Files.Folder.{edit_directory}

-- The `data-action` of a button.
pub data Action : Type 0 where
  opening editing details renaming deleting downloading copying : Action

unfoldable pub set_menu : Value → Shown → Shown
set_menu v sh = record sh { menu_entry = some v }

-- `openMenu`; `again` tells that it is the button of the menu that is open.
unfoldable pub open_menu : Bool → Value → Shown → Shown
unfolding close_menu set_menu select_folder is_folder
open_menu again v sh =
    if again && is_some sh.menu_entry
    then close_menu sh
    else if is_folder v
    then set_menu v (select_folder v (close_menu sh))
    else set_menu v (close_menu sh)

-- A number or a text that `download` reads in an entry that was validated. A digest that is no text
-- is that of no content.
unfoldable pub nat_of : Option ℕ → ℕ
nat_of none = 0
nat_of (some n) = n

unfoldable pub text_of : Option Text → Text
text_of none = []
text_of (some t) = t

unfoldable pub file_of : Value → FileEntry
unfolding path_of nat_of text_of
file_of v = record {
  path = path_of v;
  revision = nat_of (safe_nat (optional "revision" v));
  size = nat_of (safe_nat (optional "size" v));
  sha256 = text_of (as_text (optional "sha256" v));
}

-- The properties of a file are those of the listing, and a folder's are asked for.
unfoldable pub ask_info : Value → M Value
unfolding is_folder directory_info path_of
ask_info v s = if is_folder v then directory_info (path_of v) s else pure (obj end) s

unfoldable pub show_info : ℕ → Bool → Value → Value → Page → Page
unfolding is_folder is_selected on_shown show_details merge
show_info current connected v info s =
    if current == s.epoch
      && is_some s.shown.session
      && connected
      && (not (is_folder v) || is_selected v s.shown)
    then on_shown (show_details (merge v info)) s
    else s

unfoldable pub fail_info : ℕ → Error → Page → Page
unfolding on_shown set_toast expire
fail_info current e s =
    if current == s.epoch && is_some s.shown.session
    then if code_is e "session_expired" then expire current e s else on_shown (set_toast []) s
    else s

unfoldable pub ask_details : ℕ → Bool → Value → M (Unit {0})
unfolding ask_info show_info
ask_details current connected v = do info ← ask_info v; modify (show_info current connected v info)

unfoldable pub menu_details : Bool → Value → M (Unit {0})
unfolding ask_details fail_info
menu_details connected v s =
    try_catch (ask_details s.epoch connected v) (λ e. modify (fail_info s.epoch e)) s

-- The path is shown where it cannot be copied.
unfoldable pub fail_copy : ℕ → Value → Page → Page
unfolding on_shown show_details set_toast
fail_copy current v s =
    if current == s.epoch && is_some s.shown.session
    then on_shown (set_toast []) (on_shown (show_details v) s)
    else s

unfoldable pub end_copy : ℕ → Page → Page
unfolding on_shown set_toast
end_copy current s =
    if current == s.epoch && is_some s.shown.session then on_shown (set_toast []) s else s

unfoldable pub ask_copy : ℕ → Value → M (Unit {0})
unfolding end_copy value_of path_of
ask_copy current v = do
  _ ← of_exit (value_of (← request (copy_text (path_of v))))
  modify (end_copy current)

unfoldable pub menu_copy : Value → M (Unit {0})
unfolding ask_copy fail_copy
menu_copy v s = try_catch (ask_copy s.epoch v) (λ e. modify (fail_copy s.epoch v)) s

unfoldable pub act : Bool → Action → Value → M (Unit {0})
unfolding navigate open_editor menu_details edit_directory download file_of menu_copy path_of
act connected opening v = navigate (path_of v)
act connected editing v = modify (open_editor v)
act connected details v = menu_details connected v
act connected renaming v = edit_directory v true
act connected deleting v = edit_directory v false
act connected downloading v = download (file_of v)
act connected copying v = menu_copy v

-- The handler of the menu's buttons.
unfoldable pub menu_clicked : Bool → Action → M (Unit {0})
unfolding act on_shown close_menu
menu_clicked connected action s = elim s.shown.menu_entry [
  | none ↦ pure tt s
  | some v ↦ act connected action v (on_shown close_menu s)
]
