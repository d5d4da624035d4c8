-- ===== src/Editor/Opens.antt =====
-- Opening, retrying and locking keep the invariant.
use mysyncfiles.Prelude.{
  ℕ, ◌≡◌, refl, true, false, Text, has_unit, Bool-cases, if◌then◌else◌, inl, inr,
}
use mysyncfiles.Value.{Value, is_text}
use mysyncfiles.Exit.{Exit, ok, err}
use mysyncfiles.Prog.Rules
use mysyncfiles.Http.{body_of}
use mysyncfiles.Editor.State.{Editor, dirty, controls, schedule, edit}
use mysyncfiles.Editor.Calls.{Scope}
use mysyncfiles.Editor.Checks.{digest_of, source_of, challenge_of}
use mysyncfiles.Editor.Checks.Laws.{source_of-Describes}
use mysyncfiles.Editor.Open.{
  Source, authorize, confirm_challenge, prove, after_session, load_source, lock, allow_edit,
  needs_challenge,
}
use mysyncfiles.Editor.Invariant.{Platform, Inv}
use mysyncfiles.Editor.Saves.{History, Leaves, Kept}

module _ (p : Platform) (Stored : ℕ → Text → Type 0) where
  pub controls-Inv : (s : Editor) → Inv p Stored s → Inv p Stored (controls s)
  unfolding controls
  controls-Inv s i = record { saved = i.saved; draft = i.draft; plain = i.plain }

  confirm_challenge-Kept :
      (scope : Scope) (id : Text) (h : History p Stored) (s : Editor)
      → Inv p Stored s
      → Kept p Stored h (confirm_challenge scope id s)
  unfolding confirm_challenge
  confirm_challenge-Kept scope id h s i =
      ((i, tt), λ r s1 _ i1. Rules.of_exit-Leaves _ _ _ _ _ s1 i1 (body_of r) _ λ _ _. (i1, tt))

  prove-Kept :
      (scope : Scope) (h : History p Stored) (s : Editor)
      → Inv p Stored s
      → Kept p Stored h (prove scope s)
  unfolding prove
  prove-Kept scope h s i = (
    (i, tt),
    λ r s1 _ i1. Rules.of_exit-Leaves _ _ _ _ _ s1 i1 (body_of r) _ λ v _.
        Rules.of_exit-Leaves _ _ _ _ _ s1 i1 (challenge_of v) _ λ c _. (
          (i1, tt),
          λ a s2 _ i2.
              Rules.catch-Kept _ _ _ _ (confirm_challenge scope c.0 s2) _
                (confirm_challenge-Kept scope c.0 _ s2 i2) (λ _ e s3 i3. i3),
        ),
  )

  after_session-Kept :
      (scope : Scope) (x : Exit Value) (h : History p Stored) (s : Editor)
      → Inv p Stored s
      → Kept p Stored h (after_session scope x s)
  unfolding after_session
  after_session-Kept scope (ok v) h s i = (i, tt)
  after_session-Kept scope (err e) h s i = elim (Bool-cases (needs_challenge scope e)) [
    | inl wanted ↦ rw wanted (prove-Kept scope h s i)
    | inr refused ↦ rw refused i
  ]

  pub authorize-Kept :
      (scope : Scope) (h : History p Stored) (s : Editor)
      → Inv p Stored s
      → Kept p Stored h (authorize scope s)
  unfolding authorize
  authorize-Kept scope h s i = ((i, tt), λ r s1 _ i1. after_session-Kept scope (body_of r) _ s1 i1)

  -- What `load_source` leaves: a version that is stored.
  abbrev pub IsGenuine : Source → Editor → Type 0
  IsGenuine source s = Stored source.entry.revision source.content

  pub load_source-Leaves :
      (h : History p Stored) (s : Editor)
      → Inv p Stored s
      → Leaves p Stored IsGenuine h (load_source s)
  unfolding load_source
  load_source-Leaves h s i = (
    (i, tt),
    λ r s1 genuine i1. Rules.of_exit-Leaves _ _ _ _ _ s1 i1 (body_of r) _ λ v body.
        Rules.of_exit-Leaves _ _ _ _ _ s1 i1 (source_of s.path v) _ λ found accepted. (
          (i1, tt),
          λ a s2 digests i2. Rules.of_exit-Leaves _ _ _ _ _ s2 i2 (digest_of a) _ λ sha digested.
              Rules.guard-Leaves _ _ _ _ _ s2 i2 (is_text found.2 sha) _ _ λ same.
                let told = source_of-Describes s.path v found.0 found.1 found.2 accepted in
                (
                  i2,
                  genuine v found.0 found.1 body told.version told.text
                      (rw told.digest (rw (← digests sha digested) same)),
                ),
        ),
  )

  pub allow_edit-Inv : (s : Editor) → Inv p Stored s → Inv p Stored (allow_edit s)
  unfolding allow_edit
  allow_edit-Inv s i = record { saved = i.saved; draft = i.draft; plain = i.plain }

  -- Editing, and the two ways of locking.
  pub edit-Inv :
      (t : Text) (s : Editor) → has_unit 13 t ≡ false → Inv p Stored s → Inv p Stored (edit t s)
  unfolding edit
  edit-Inv t s plain i =
      elim s.read_only as (λ b. Inv p Stored (if b then s else schedule (record s { value = t }))) [
        | true ↦ i
        | false ↦ record { saved = i.saved; draft = i.draft; plain = plain }
      ]

  pub lock-Inv : (s : Editor) → Inv p Stored s → Inv p Stored (lock s).0
  unfolding lock has_unit
  lock-Inv s i = elim (Bool-cases (dirty s)) [
    | inl kept ↦ rw kept (record { saved = i.saved; draft = i.draft; plain = i.plain })
    | inr dropped ↦ rw dropped (record { saved = tt; draft = i.draft; plain = refl })
  ]
