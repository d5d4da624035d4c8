-- ===== src/Code/Tests.antt =====
-- The code input after a file is opened, is made editable, and is wrapped.
use mysyncfiles.Prelude.{true, false, [], ◌∷◌, codes}
use mysyncfiles.Code.{created, spaces}
use mysyncfiles.Code.Configured.{
  IsConfigured, run, value_set, read_only_set, wrap_clicked, indent_chosen, transacted,
  run-created-IsConfigured,
}

run-created-IsConfigured_example : IsConfigured (
    run
      (value_set (codes "x")
        ∷ read_only_set false
        ∷ wrap_clicked
        ∷ indent_chosen (spaces 2)
        ∷ transacted (codes "xy") 1 0
        ∷ [])
      (created true))
run-created-IsConfigured_example = run-created-IsConfigured true (
    value_set (codes "x")
    ∷ read_only_set false
    ∷ wrap_clicked
    ∷ indent_chosen (spaces 2)
    ∷ transacted (codes "xy") 1 0
    ∷ [])
