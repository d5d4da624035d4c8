-- ===== src/Files/Drop.antt =====
-- Choosing the files to send (web/atlas.js): the button and its picker, and files that are dragged
-- onto the listing.
use mysyncfiles.Prelude.{
  ℕ, ◌+◌, ◌-◌, Bool, true, not, ◌||◌, Option, none, some, List, [], Text, text_eq, length, leb,
  ◌==◌, if◌then◌else◌,
}
use mysyncfiles.Prog.{pure}
use mysyncfiles.Files.State.{Shown, Page, can_upload}
use mysyncfiles.Files.Calls.{M}
use mysyncfiles.Files.Selection.{close_menu}
use mysyncfiles.Files.Browse.{on_shown, set_toast}
use mysyncfiles.Files.Upload.{LocalFile, send_files}

unfoldable pub set_picker : Option (Text × ℕ) → Shown → Shown
set_picker o sh = record sh { picker = o }

-- The button: what is chosen is for the folder that is open.
unfoldable pub pick : Bool → Bool → Page → Page
unfolding can_upload set_picker on_shown
pick status_page inert s =
    if can_upload status_page inert s
    then on_shown (set_picker (some (s.shown.view.directory, s.epoch))) s
    else s

-- The files are sent if the page has not been locked, and shows the folder still.
unfoldable pub take_picked : Bool → Bool → List LocalFile → Option (Text × ℕ) → M (Unit {0})
unfolding send_files set_toast on_shown can_upload
take_picked status_page inert files none s = pure tt s
take_picked status_page inert files (some (directory, epoch)) s =
    if leb (length files) 0 || not (epoch == s.epoch)
    then pure tt s
    else if not (can_upload status_page inert s) || not (text_eq s.shown.view.directory directory)
    then pure tt (on_shown (set_toast []) s)
    else send_files status_page inert files directory s

unfoldable pub picked : Bool → Bool → List LocalFile → M (Unit {0})
unfolding take_picked set_picker on_shown
picked status_page inert files s =
    take_picked status_page inert files s.shown.picker (on_shown (set_picker none) s)

-- `clearDrop`
unfoldable pub clear_drop : Shown → Shown
clear_drop sh = record sh { drag_depth = 0 }

unfoldable pub set_cancelled : Bool → Shown → Shown
set_cancelled b sh = record sh { drag_cancelled = b }

unfoldable pub deeper : Shown → Shown
unfolding close_menu
deeper sh = record (close_menu sh) { drag_depth = sh.drag_depth + 1 }

-- The handlers of `dragenter`, of `dragleave`, of a drag that ends, and of Escape during it.
unfoldable pub drag_enter : Bool → Bool → Page → Page
unfolding can_upload deeper on_shown
drag_enter status_page inert s =
    if not (can_upload status_page inert s) || s.shown.drag_cancelled then s else on_shown deeper s

unfoldable pub drag_leave : Shown → Shown
unfolding clear_drop
drag_leave sh =
    if leb sh.drag_depth 1 then clear_drop sh else record sh { drag_depth = sh.drag_depth - 1 }

unfoldable pub drag_end : Shown → Shown
unfolding clear_drop set_cancelled
drag_end sh = set_cancelled (not true) (clear_drop sh)

unfoldable pub drag_escape : Shown → Shown
unfolding clear_drop set_cancelled
drag_escape sh = if leb sh.drag_depth 0 then sh else set_cancelled true (clear_drop sh)

-- The handler of `drop`; `folders` tells that a folder is among what is dropped. The page's own handler
-- of it ends the drag.
unfoldable pub drop_files : Bool → Bool → Bool → List LocalFile → M (Unit {0})
unfolding can_upload drag_end on_shown set_toast send_files
drop_files status_page inert folders files s =
    let t = on_shown drag_end s in
    if not (can_upload status_page inert s) || s.shown.drag_cancelled
    then pure tt t
    else if folders
    then pure tt (on_shown (set_toast []) t)
    else send_files status_page inert files s.shown.view.directory t
