-- ===== src/Files/Accesses.antt =====
-- The requests of a verification, and the invariant of the files page.
use mysyncfiles.Prelude.{ℕ, true, not, ◌&&◌, Text, ◌==◌}
use mysyncfiles.Prog.{throw}
use mysyncfiles.Prog.Stable
use mysyncfiles.Http.{failure}
use mysyncfiles.Editor.Checks.{challenge_of}
use mysyncfiles.Files.State.{Page, is_aborted}
use mysyncfiles.Files.Calls.{value_of, local_refusal}
use mysyncfiles.Files.Load.{load_current}
use mysyncfiles.Files.Access.{
  open_page, probe_check, read_refusal, ask_proof, prove_read, enter_page, set_stage, prove_access,
  ask_access,
}
use mysyncfiles.Files.Fits.{Server, Inv, Rel_refl, Safe, bind-Safe, catch-Safe, earlier-Safe}
use mysyncfiles.Files.Loads.{load_current-Safe}
use mysyncfiles.Files.Restores.{open_page-Safe}

module _ (Served : Server) where
  ask_proof-Safe : (id : Text) (s : Page) → Inv Served s → Safe Served s (ask_proof id s)
  unfolding ask_proof
  ask_proof-Safe id s i = (
    i,
    Rel_refl s,
    tt,
    λ r t _ j _.
        Stable.of_exit-Ensures _ _ _ _ _ t t j (Rel_refl t) (value_of r) _
          λ v _. (j, Rel_refl t, tt),
  )

  prove_read-Safe : (signal : ℕ) (s : Page) → Inv Served s → Safe Served s (prove_read signal s)
  unfolding prove_read
  prove_read-Safe signal s i = (
    i,
    Rel_refl s,
    tt,
    λ r t _ j _. Stable.of_exit-Ensures _ _ _ _ _ t t j (Rel_refl t) (value_of r) _ λ _ _. (
      j,
      Rel_refl t,
      tt,
      λ r' u _ k _. Stable.of_exit-Ensures _ _ _ _ _ u u k (Rel_refl u) (value_of r') _ λ v _.
          Stable.of_exit-Ensures _ _ _ _ _ u u k (Rel_refl u) (challenge_of v) _ λ x _. (
            k,
            Rel_refl u,
            tt,
            λ a w _ n _.
                Stable.guard-Ensures _ _ _ _ _ w w n (Rel_refl w) (not (is_aborted signal w))
                  (failure "cancelled") _
                  λ _.
                    catch-Safe Served (λ e. throw (read_refusal (local_refusal a) e)) w
                      (ask_proof x.0 w) (ask_proof-Safe x.0 w n) (λ e z o _. (o, Rel_refl z)),
          ),
    ),
  )

  prove_access-Safe :
      (now signal current : ℕ) (s : Page)
      → Inv Served s
      → Safe Served s (prove_access now signal current s)
  unfolding prove_access enter_page
  prove_access-Safe now signal current s i =
      bind-Safe Served _ s (prove_read signal s) (prove_read-Safe signal s i) λ v w k _.
        Stable.when-Safe _ _ _ _ w w (current == w.epoch && not (is_aborted signal w))
          (enter_page now v) k (Rel_refl w)
          (λ _.
            bind-Safe Served (λ _. load_current) w (open_page now v w)
              (open_page-Safe Served now v w k) (λ _ z n _. load_current-Safe Served z n))

  pub ask_access-Safe :
      (now signal current : ℕ) (s : Page)
      → Inv Served s
      → Safe Served s (ask_access now signal current s)
  unfolding ask_access set_stage
  ask_access-Safe now signal current s i = (
    i,
    Rel_refl s,
    tt,
    λ r t _ j _. Stable.of_exit-Ensures _ _ _ _ _ t t j (Rel_refl t) (probe_check r) _ λ _ _.
        earlier-Safe Served t (set_stage true t)
          (prove_access now signal current (set_stage true t)) (Rel_refl t)
          (prove_access-Safe now signal current (set_stage true t) j),
  )
