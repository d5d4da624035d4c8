-- ===== src/Files/Rights.antt =====
-- `authorizeUpload`, and the invariant of the files page.
use mysyncfiles.Prelude.{if-either, ℕ, not, Text}
use mysyncfiles.Value.{Value}
use mysyncfiles.Exit.{Exit, ok, err}
use mysyncfiles.Prog.{throw}
use mysyncfiles.Prog.Stable
use mysyncfiles.Http.{failure}
use mysyncfiles.Editor.Checks.{challenge_of}
use mysyncfiles.Files.State.{Page, is_aborted}
use mysyncfiles.Files.Calls.{
  Scope, value_of, needs_proof, refusal, local_refusal, confirm_proof, prove_scope, after_scope,
  authorize_upload,
}
use mysyncfiles.Files.Fits.{Server, Inv, Rel_refl, Safe, same-After, catch-Safe}

module _ (Served : Server) where
  confirm_proof-Safe :
      (scope : Scope) (id : Text) (s : Page)
      → Inv Served s
      → Safe Served s (confirm_proof scope id s)
  unfolding confirm_proof
  confirm_proof-Safe scope id s i = (
    i,
    Rel_refl s,
    tt,
    λ r t _ j l.
        Stable.of_exit-Ensures _ _ _ _ _ t t j (Rel_refl t) (value_of r) _
          λ _ _. same-After Served t j,
  )

  prove_scope-Safe :
      (signal : ℕ) (scope : Scope) (s : Page)
      → Inv Served s
      → Safe Served s (prove_scope signal scope s)
  unfolding prove_scope
  prove_scope-Safe signal scope s i = (
    i,
    Rel_refl s,
    tt,
    λ r t _ j l. Stable.of_exit-Ensures _ _ _ _ _ t t j (Rel_refl t) (value_of r) _ λ v _.
        Stable.of_exit-Ensures _ _ _ _ _ t t j (Rel_refl t) (challenge_of v) _ λ x _. (
          j,
          Rel_refl t,
          tt,
          λ a u _ k _.
              Stable.guard-Ensures _ _ _ _ _ u u k (Rel_refl u) (not (is_aborted signal u))
                (failure "cancelled") _
                λ _.
                  catch-Safe Served (λ e. throw (refusal (local_refusal a) e)) u
                    (confirm_proof scope x.0 u) (confirm_proof-Safe scope x.0 u k)
                    (λ e w o _. (o, Rel_refl w)),
        ),
  )

  after_scope-Safe :
      (signal : ℕ) (scope : Scope) (x : Exit Value) (s : Page)
      → Inv Served s
      → Safe Served s (after_scope signal scope x s)
  unfolding after_scope
  after_scope-Safe signal scope (ok v) s i = same-After Served s i
  after_scope-Safe signal scope (err e) s i =
      if-either (λ m. Safe Served s (m s)) (needs_proof scope e) (prove_scope signal scope)
        (throw e) (λ _. prove_scope-Safe signal scope s i) (λ _. (i, Rel_refl s))

  -- An authorisation changes nothing of the page.
  pub authorize_upload-Safe :
      (signal : ℕ) (scope : Scope) (s : Page)
      → Inv Served s
      → Safe Served s (authorize_upload signal scope s)
  unfolding authorize_upload
  authorize_upload-Safe signal scope s i =
      (i, Rel_refl s, tt, λ r t _ j l. after_scope-Safe signal scope (value_of r) t j)
