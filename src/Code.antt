-- ===== src/Code.antt =====
-- The code input of the editor (`createCode`, web/editor-src/code.js): its variables and buttons, what
-- CodeMirror is configured with, and the Tab key. CodeMirror's documents, selections and history are
-- what it says they are; its other extensions do not depend on the variables.
pub mod Configured
mod Tests
use mysyncfiles.Prelude.{
  ℕ, ◌+◌, ◌-◌, Bool, true, false, not, ◌&&◌, ◌||◌, List, [], ◌∷◌, map, any, length, replicate, Text,
  ◌==◌, if◌then◌else◌,
}
use mysyncfiles.Indent.{space_unit, tab_unit, starts_with_tab, indentation, tab_size, tab_spaces}

-- The value of the menu of indentations: "tab", or a number of spaces.
pub data Choice : Type 0 where
  tabs : Choice
  spaces : ℕ → Choice

-- What the view is configured with: `indentUnit` and `tabSize`, `readOnly` and `editable`, the wrapping of
-- lines, the marks of white space, and the dark theme.
pub record Config : Type 0 where
  pub indent_unit : Text
  pub tab_width : ℕ
  pub read_only : Bool
  pub takes_input : Bool
  pub wrapping : Bool
  pub marks : Bool
  pub dark : Bool

-- `unit` and `editable` are the variables; `wrap_pressed`, `marks_pressed`, `choice` and `page_dark` are
-- what the page shows; the document and the depths of the history are those of the view's state.
pub record Code : Type 0 where
  pub unit : Text
  pub editable : Bool
  pub wrap_pressed : Bool
  pub marks_pressed : Bool
  pub choice : Choice
  pub page_dark : Bool
  pub config : Config
  pub document : Text
  pub undo_depth : ℕ
  pub redo_depth : ℕ
  pub undo_disabled : Bool
  pub redo_disabled : Bool
  pub reindent_disabled : Bool

-- `extensions()`, of which these depend on the variables and on the page.
unfoldable pub extensions : Code → Config
unfolding tab_size
extensions c = record {
  indent_unit = c.unit;
  tab_width = tab_size c.unit;
  read_only = not c.editable;
  takes_input = c.editable;
  wrapping = c.wrap_pressed;
  marks = c.marks_pressed;
  dark = c.page_dark;
}

-- The buttons that `status` enables.
unfoldable pub status : Code → Code
status c = record c {
  undo_disabled = not c.editable || c.undo_depth == 0;
  redo_disabled = not c.editable || c.redo_depth == 0;
  reindent_disabled = not c.editable;
}

-- The view's state made anew, with a document and no history.
unfoldable pub make_view : Text → Code → Code
unfolding extensions
make_view text c = record c {
  config = extensions c;
  document = text;
  undo_depth = 0;
  redo_depth = 0;
}

unfoldable pub choice_of : Text → Choice
unfolding starts_with_tab
choice_of unit = if starts_with_tab unit then tabs else spaces (length unit)

unfoldable pub unit_for : Choice → Text
unit_for tabs = tab_unit ∷ []
unit_for (spaces n) = replicate n space_unit

-- `set value`
unfoldable pub set_value : Text → Code → Code
unfolding indentation choice_of make_view status
set_value text c =
    status
      (make_view text (record c { unit = indentation text; choice = choice_of (indentation text) }))

unfoldable pub same_bool : Bool → Bool → Bool
same_bool true b = b
same_bool false b = not b

-- `set readOnly`
unfoldable pub set_read_only : Bool → Code → Code
unfolding same_bool status
set_read_only value c =
    let d = record c { editable = not value } in
    status (
      if same_bool c.config.read_only value
      then d
      else record d { config = record d.config { read_only = value; takes_input = not value } })

-- The buttons that wrap lines and mark white space.
unfoldable pub toggle_wrap : Code → Code
toggle_wrap c =
    let enabled = not c.wrap_pressed in
    record c { wrap_pressed = enabled; config = record c.config { wrapping = enabled } }

unfoldable pub toggle_marks : Code → Code
toggle_marks c =
    let enabled = not c.marks_pressed in
    record c { marks_pressed = enabled; config = record c.config { marks = enabled } }

-- The menu of indentations.
unfoldable pub choose : Choice → Code → Code
unfolding unit_for tab_size
choose choice c =
    let unit = unit_for choice in
    record c {
      choice = choice;
      unit = unit;
      config = record c.config { indent_unit = unit; tab_width = tab_size unit };
    }

-- The page's theme, which is observed.
unfoldable pub set_dark : Bool → Code → Code
set_dark dark c = record c { page_dark = dark; config = record c.config { dark = dark } }

-- A transaction of CodeMirror, by a command or by the user: the listener tells of it.
unfoldable pub transact : Text → ℕ → ℕ → Code → Code
unfolding status
transact text undo redo c =
    status (record c { document = text; undo_depth = undo; redo_depth = redo })

-- The input as it is created, on a page whose buttons are not pressed.
unfoldable pub created : Bool → Code
unfolding make_view status
created dark = status (
    make_view [] (record {
      unit = replicate 4 space_unit;
      editable = false;
      wrap_pressed = false;
      marks_pressed = false;
      choice = spaces 4;
      page_dark = dark;
      config = record {
        indent_unit = [];
        tab_width = 0;
        read_only = true;
        takes_input = false;
        wrapping = false;
        marks = false;
        dark = dark;
      };
      document = [];
      undo_depth = 0;
      redo_depth = 0;
      undo_disabled = true;
      redo_disabled = true;
      reindent_disabled = true;
    }))

-- A range of the selection, with the start of the line of its head.
pub record Range : Type 0 where
  pub from : ℕ
  pub end : ℕ
  pub head : ℕ
  pub line_from : ℕ

-- What replaces a range, and where the cursor then stands.
pub record Change : Type 0 where
  pub from : ℕ
  pub end : ℕ
  pub inserted : Text
  pub cursor : ℕ

-- What the Tab key does: it leaves the key to the browser, accepts a completion, indents the lines of the
-- selection, inserts a tab, or inserts spaces at each cursor.
pub data TabAction : Type 0 where
  left accepted indented tab_inserted : TabAction
  inserted_at : List Change → TabAction

unfoldable pub change_at : Text → Range → Change
unfolding tab_spaces
change_at unit r =
    let spaces = tab_spaces unit (r.head - r.line_from) in
    record { from = r.from; end = r.end; inserted = spaces; cursor = r.from + length spaces }

-- `tab`; `accepts` is whether a completion is active, and is accepted.
unfoldable pub tab : Bool → List Range → Code → TabAction
unfolding starts_with_tab change_at
tab accepts ranges c =
    if c.config.read_only
    then left
    else if accepts
    then accepted
    else if any (λ r. not (r.from == r.end)) ranges
    then indented
    else if starts_with_tab c.unit
    then tab_inserted
    else inserted_at (map (change_at c.unit) ranges)
