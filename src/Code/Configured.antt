-- ===== src/Code/Configured.antt =====
-- The code input after any sequence of operations (web/editor-src/code.js).
use mysyncfiles.Prelude.{
  if-either, zero, suc, ℕ, ◌≡◌, refl, sym, ap, inl, inr, Bool, true, false, not, ◌||◌, List, [],
  ◌∷◌, Text, replicate, length-replicate, ◌==◌, arith,
}
use mysyncfiles.Indent.{space_unit, tab_unit, starts_with_tab, indentation}
use mysyncfiles.Indent.Laws.{indentation_lem}
use mysyncfiles.Code.{
  Choice, Code, extensions, status, make_view, choice_of, unit_for, set_value, same_bool,
  set_read_only, toggle_wrap, toggle_marks, choose, set_dark, transact, created,
}

pub data Op : Type 0 where
  value_set : Text → Op
  read_only_set : Bool → Op
  wrap_clicked marks_clicked : Op
  indent_chosen : Choice → Op
  theme_changed : Bool → Op
  transacted : Text → ℕ → ℕ → Op

unfoldable pub apply : Op → Code → Code
unfolding set_value set_read_only toggle_wrap toggle_marks choose set_dark transact
apply (value_set text) = set_value text
apply (read_only_set b) = set_read_only b
apply wrap_clicked = toggle_wrap
apply marks_clicked = toggle_marks
apply (indent_chosen choice) = choose choice
apply (theme_changed dark) = set_dark dark
apply (transacted text undo redo) = transact text undo redo

unfoldable pub run : List Op → Code → Code
unfolding apply
run [] c = c
run (op ∷ ops) c = run ops (apply op c)

pub record IsConfigured (c : Code) : Type 0 where
  pub configured : c.config ≡ extensions c
  pub chosen : c.unit ≡ unit_for c.choice
  pub undo_told : c.undo_disabled ≡ (not c.editable || c.undo_depth == 0)
  pub redo_told : c.redo_disabled ≡ (not c.editable || c.redo_depth == 0)
  pub reindent_told : c.reindent_disabled ≡ not c.editable

tab-choice_of : (unit : Text) → unit ≡ tab_unit ∷ [] → unit_for (choice_of unit) ≡ unit
unfolding choice_of unit_for starts_with_tab
tab-choice_of unit e = rw e refl

spaces-choice_of : (n : ℕ) → unit_for (choice_of (replicate n space_unit)) ≡ replicate n space_unit
unfolding choice_of unit_for starts_with_tab
spaces-choice_of zero = refl
spaces-choice_of (suc n) = ap (λ k. replicate k space_unit) (ap suc (length-replicate n space_unit))

-- The menu tells the unit of a text.
unit_for-choice_of : (text : Text) → unit_for (choice_of (indentation text)) ≡ indentation text
unit_for-choice_of text = elim (indentation_lem text 0) [
  | inl tab ↦ tab-choice_of (indentation text) tab
  | inr (unit, aligned) ↦ elim unit [
    | inl tab ↦ tab-choice_of (indentation text) tab
    | inr (w, widths, same) ↦ rw same (spaces-choice_of w)
  ]
]

set_value-IsConfigured : (text : Text) (c : Code) → IsConfigured (set_value text c)
unfolding set_value make_view status extensions
set_value-IsConfigured text c = record {
  configured = refl;
  chosen = sym (unit_for-choice_of text);
  undo_told = refl;
  redo_told = refl;
  reindent_told = refl;
}

same_bool_sound : (a b : Bool) → same_bool a b ≡ true → a ≡ b
unfolding same_bool
same_bool_sound true b h = sym h
same_bool_sound false b h = ground arith

set_read_only-IsConfigured :
    (b : Bool) (c : Code) → IsConfigured c → IsConfigured (set_read_only b c)
unfolding set_read_only status extensions
set_read_only-IsConfigured b c i =
    let d = record c { editable = not b } in
    if-either (λ x. IsConfigured (status x)) (same_bool c.config.read_only b) d
      (record d { config = record d.config { read_only = b; takes_input = not b } })
      (λ same. record {
        configured = ground (arith, i.configured, same_bool_sound c.config.read_only b same);
        chosen = i.chosen;
        undo_told = refl;
        redo_told = refl;
        reindent_told = refl;
      })
      (λ other. record {
        configured = ground (arith, i.configured);
        chosen = i.chosen;
        undo_told = refl;
        redo_told = refl;
        reindent_told = refl;
      })

apply-IsConfigured : (op : Op) (c : Code) → IsConfigured c → IsConfigured (apply op c)
unfolding apply toggle_wrap toggle_marks choose set_dark transact status extensions
apply-IsConfigured (value_set text) c i = set_value-IsConfigured text c
apply-IsConfigured (read_only_set b) c i = set_read_only-IsConfigured b c i
apply-IsConfigured wrap_clicked c i = ground (arith, i.configured)
apply-IsConfigured marks_clicked c i = ground (arith, i.configured)
apply-IsConfigured (indent_chosen choice) c i = ground (arith, i.configured)
apply-IsConfigured (theme_changed dark) c i = ground (arith, i.configured)
apply-IsConfigured (transacted text undo redo) c i = ground (arith, i.configured)

run-IsConfigured : (ops : List Op) (c : Code) → IsConfigured c → IsConfigured (run ops c)
unfolding run
run-IsConfigured [] c i = i
run-IsConfigured (op ∷ ops) c i = run-IsConfigured ops (apply op c) (apply-IsConfigured op c i)

created-IsConfigured : (dark : Bool) → IsConfigured (created dark)
unfolding created make_view status extensions unit_for
created-IsConfigured dark = record {
  configured = refl;
  chosen = refl;
  undo_told = refl;
  redo_told = refl;
  reindent_told = refl;
}

-- After any sequence of texts that are set, of changes of the right to edit, of clicks on the buttons, of
-- choices of the indentation, of changes of the theme and of transactions, CodeMirror is configured as the
-- variables and the page tell: the unit and the size of a tab are those of the menu, the input takes text
-- exactly if it is editable, and the buttons to undo, redo and reindent are enabled exactly if it is and
-- there is something to undo or redo.
pub run-created-IsConfigured : (dark : Bool) (ops : List Op) → IsConfigured (run ops (created dark))
run-created-IsConfigured dark ops = run-IsConfigured ops (created dark) (created-IsConfigured dark)
