-- ===== src/Files/Trials.antt =====
-- The theorems about a load at a page with a session, and servers that answer and refuse.
use mysyncfiles.Indent.{is_empty}
use mysyncfiles.Files.Crumbs.{breadcrumbs, breadcrumbs-AreFolders}
use mysyncfiles.Prelude.{
  has_unit, ℕ, ◌+◌, ◌&&◌, leb, if◌then◌else◌, map, List, ◌≡◌, refl, true, none, some, [], ◌∷◌,
  codes, text_eq,
}
use mysyncfiles.Value.{get, items, as_text, is_text, is_null, is_nullish, safe_nat}
use mysyncfiles.Exit.{ok}
use mysyncfiles.Http.{reply, failed, failure, field, optional}
use mysyncfiles.Prog.Serve.{serve}
use mysyncfiles.Files.State.{View, Session, Page, is_aborted, abort, blank}
use mysyncfiles.Files.Calls.{Call, Reply, answer}
use mysyncfiles.Files.Listing.{listing_of}
use mysyncfiles.Files.Load.{load, begin_load}
use mysyncfiles.Files.Reachable.{initial}
use mysyncfiles.Prog.{modify}
use mysyncfiles.Prog.Threads.{start as starts}
use mysyncfiles.Files.State.{lock}
use mysyncfiles.Files.Reachable.{locked}
use mysyncfiles.Files.Lease.{Moves, Promises, lease_of, reached-Refines}
use mysyncfiles.Files.State.{Shown}
use mysyncfiles.Files.Listing.{query_of}
use mysyncfiles.Files.Selection.{is_folder, show_entries}
use mysyncfiles.Files.Browse.{editable}
use mysyncfiles.Files.Drawn.{Row, row_of, draw_rows, highlighted, scale}
use mysyncfiles.Files.Redrawn.{AreDrawn, draw_rows-AreDrawn}
use mysyncfiles.Files.Menu.{renaming, deleting}
use mysyncfiles.Files.Keys.{arrow_up, arrow_down, is_offered, focused}
use mysyncfiles.Files.Focused.{IsWithinReach, focused-IsWithinReach}
use mysyncfiles.Files.Marks.{Highlights, highlighted-Highlights, IsScaled, scale-IsScaled}
use mysyncfiles.Files.Samples.{
  folder, answered, account, listed, locked_page, computed, listed-IsReached,
}
use mysyncfiles.Files.Answered.{IsShown, load-IsShown}

abbrev session : Session
session = record {
  expires_at = 2000;
  device_name = codes "pc";
  chunk_bytes = 8388608;
  download_limit = 268435456;
  upload_allowed = true;
  manage_allowed = true;
  remaining = 1800000;
}

abbrev page : Page
page = record initial { shown = record initial.shown { session = some session } }

abbrev view : View
view = record { directory = codes "docs"; search = []; page_index = 0; cursors = [] ∷ [] }

unfoldable answering : Call → Reply
answering _ = answer (reply 200 answered)

unfoldable refusing : Call → Reply
refusing _ = answer (failed (failure "status_busy"))

load-IsShown_example :
    ((serve answering (load view page)).0 ≡ ok tt)
    × IsShown answering view (folder ∷ [], none) (serve answering (load view page)).1
unfolding answering listing_of field optional get items is_text as_text is_null is_nullish safe_nat
    text_eq is_aborted begin_load abort blank
load-IsShown_example =
    load-IsShown answering view answered (folder ∷ [], none) page refl refl refl refl

breadcrumbs-AreFolders_example :
    breadcrumbs [] (codes "docs/notes")
    ≡ (codes "Fichiers", [])
      ∷ (codes "docs", codes "docs")
      ∷ (codes "notes", codes "docs/notes")
      ∷ []
unfolding has_unit is_empty
breadcrumbs-AreFolders_example =
    breadcrumbs-AreFolders [] (codes "docs" ∷ codes "notes" ∷ []) ((refl, refl), ((refl, refl), tt))

reached-Refines_example :
    Moves (lease_of listed.state) (lease_of locked_page.state)
    × Promises (lease_of locked_page.state) locked_page.state
unfolding computed
reached-Refines_example = reached-Refines account listed locked_page listed-IsReached (
    starts (modify (lock (codes "expired") [])) listed.state listed.pool listed.made
      (locked (codes "expired") [] listed.state))

-- A lower case of the units of ASCII.
lower_unit : ℕ → ℕ
lower_unit c = if leb b'A' c && leb c b'Z' then c + 32 else c

abbrev listing : Shown
listing = record page.shown {
  view = view;
  displayed_query = some (query_of view);
  displayed_entries = folder ∷ [];
}

abbrev rows : List (Row (map lower_unit))
rows = map (row_of (map lower_unit) []) (folder ∷ [])

draw_rows-AreDrawn_example :
    (draw_rows (map lower_unit) view (folder ∷ []) listing rows ≡ rows)
    × AreDrawn
        (map lower_unit)
        (show_entries view (folder ∷ [], none) listing)
        (draw_rows (map lower_unit) view (folder ∷ []) listing rows)
draw_rows-AreDrawn_example =
    draw_rows-AreDrawn (map lower_unit) view (folder ∷ []) none listing rows
      (record { own = refl; drawn = refl })

highlighted-Highlights_example :
    Highlights lower_unit
      (codes "Notes")
      (codes "my notes.txt")
      (highlighted (map lower_unit) (codes "Notes") (codes "my notes.txt"))
highlighted-Highlights_example =
    highlighted-Highlights lower_unit (codes "Notes") (codes "my notes.txt")

scale-IsScaled_example : IsScaled 1500000 0 5 (scale 5 1500000 0)
scale-IsScaled_example = scale-IsScaled 5 1500000 0

-- The arrow up goes from the first button of a folder's menu to the last.
up_to_last : focused folder (some session) (arrow_up ∷ []) ≡ some deleting
unfolding focused editable is_text optional get text_eq is_folder
up_to_last = refl

focused-IsWithinReach_example :
    IsWithinReach folder (some session) (arrow_up ∷ arrow_down ∷ []) renaming
unfolding is_offered is_folder is_text optional get text_eq
focused-IsWithinReach_example =
    focused-IsWithinReach folder (some session) (arrow_up ∷ arrow_down ∷ []) renaming refl
