-- ===== src/Editor/Saves.antt =====
-- Saving, and the invariant of the editor.
use mysyncfiles.Prelude.{ℕ, ◌≡◌, refl, List, Text, ◌==◌, utf8_length, leb, Bool-cases, inl, inr}
use mysyncfiles.Value.{Value}
use mysyncfiles.Exit.{Exit, ok, Error}
use mysyncfiles.Prog.{Prog, done, modify, catch_prog, finally_prog}
use mysyncfiles.Prog.Rules
use mysyncfiles.Http.{Answer, body_of}
use mysyncfiles.Editor.State.{Entry, Save, Editor}
use mysyncfiles.Editor.Calls.{Call, put_file, M}
use mysyncfiles.Editor.Checks.{digest_of, saved_entry, limit}
use mysyncfiles.Editor.Checks.Laws.{Acknowledges, saved_entry-Acknowledges}
use mysyncfiles.Editor.Save.{
  Plan, joined, settled, rejected, started, attempt, save, confirm, note_draft, fail_save, end_save,
  begin_save, ended, await_save, carry_out,
}
use mysyncfiles.Editor.Invariant.{Platform, Inv, Genuine, Sends}

module _ (p : Platform) (Stored : ℕ → Text → Type 0) where
  abbrev pub History : Type 0
  History = List (Call × Answer)

  abbrev pub Leaves :
      {A : Type 0} → (A → Editor → Type 0) → History → Prog Call Answer Editor A → Type 0
  Leaves P = Rules.Leaves (Genuine p Stored) (Inv p Stored) (Sends p Stored) P

  abbrev pub Kept : {A : Type 0} → History → Prog Call Answer Editor A → Type 0
  Kept = Rules.Kept (Genuine p Stored) (Inv p Stored) (Sends p Stored)

  pub done-Kept :
      {A : Type 0} (x : Exit A) (h : History) (s : Editor) → Inv p Stored s → Kept h (done x s)
  done-Kept x h s i = Rules.done-Kept (Genuine p Stored) (Inv p Stored) (Sends p Stored) x h s i

  -- `try { … } catch { … } finally { … }`
  pub try-Kept :
      (f : Error → M (Unit {0})) (m : Editor → Editor) (q : Prog Call Answer Editor (Unit {0}))
      (h : History)
      → Kept h q
      → ((h : History) (e : Error) (s : Editor) → Inv p Stored s → Kept h (f e s))
      → ((s : Editor) → Inv p Stored s → Inv p Stored (m s))
      → Kept h (finally_prog (modify m) (catch_prog f q))
  try-Kept f m q h l k n = Rules.finally-Kept _ _ _ m _ h (Rules.catch-Kept _ _ _ f q h l k) n

  -- What a save must have captured.
  pub record IsFaithful (sv : Save) : Type 0 where
    pub encoded : p.normalise sv.code ≡ sv.text
    pub base_content : Text
    pub base_stored : Stored sv.base base_content

  confirm-Inv :
      (sv : Save) (s : Editor) (a : Answer) (v : Value) (e : Entry)
      → IsFaithful sv
      → Inv p Stored s
      → Genuine p Stored (put_file s.path sv.base sv.code) a
      → body_of a ≡ ok v
      → Acknowledges s.path (p.digest sv.code) sv.base (utf8_length sv.code) v e
      → Inv p Stored (confirm e sv.text s)
  unfolding confirm
  confirm-Inv sv s a v e f i genuine body k = record {
    saved = record {
      stored_content = sv.code;
      stored = genuine v e.revision body k.version k.digest;
      shown = f.encoded;
    };
    draft = tt;
    plain = i.plain;
  }

  note_draft-Inv :
      (sv : Save) (s : Editor) → IsFaithful sv → Inv p Stored s → Inv p Stored (note_draft sv s)
  unfolding note_draft
  note_draft-Inv sv s f i = record { saved = i.saved; draft = f.encoded; plain = i.plain }

  fail_save-Inv :
      (current : ℕ) (e : Error) (s : Editor) → Inv p Stored s → Inv p Stored (fail_save current e s)
  unfolding fail_save
  fail_save-Inv current e s i = elim (Bool-cases (current == s.generation)) [
    | inl same ↦ rw same (record { saved = i.saved; draft = i.draft; plain = i.plain })
    | inr gone ↦ rw gone i
  ]

  end_save-Inv : (s : Editor) → Inv p Stored s → Inv p Stored (end_save s)
  unfolding end_save
  end_save-Inv s i = record { saved = i.saved; draft = i.draft; plain = i.plain }

  attempt-Kept :
      (sv : Save) (h : History) (s : Editor)
      → IsFaithful sv
      → Inv p Stored s
      → Kept h (attempt sv s)
  unfolding attempt
  attempt-Kept sv h s f i =
      Rules.guard-Leaves _ _ _ _ h s i (leb (utf8_length sv.code) limit) _ _ λ _. (
        (i, tt),
        λ r s1 digests i1. Rules.of_exit-Leaves _ _ _ _ _ s1 i1 (digest_of r) _ λ sha digested. (
          (note_draft-Inv sv s1 f i1, (f.base_content, f.base_stored, (refl, refl, f.encoded))),
          λ a s2 genuine i2. Rules.of_exit-Leaves _ _ _ _ _ s2 i2 (body_of a) _ λ v body.
              Rules.guard-Leaves _ _ _ _ _ s2 i2 (sv.current == s2.generation) _ _ λ _.
                Rules.of_exit-Leaves _ _ _ _ _ s2 i2
                  (saved_entry s2.path sha sv.base (utf8_length sv.code) v) _
                  λ e accepted. (
                    confirm-Inv sv s2 a v e f i2 genuine body (
                        rw (← digests sha digested) (
                          saved_entry-Acknowledges s2.path sha sv.base (utf8_length sv.code) v e
                            accepted)),
                    tt,
                  ),
        ),
      )

  save-Kept :
      (sv : Save) (h : History) (s : Editor) → IsFaithful sv → Inv p Stored s → Kept h (save sv s)
  unfolding save
  save-Kept sv h s f i = (
    (i, tt),
    λ r s1 _ i1.
        Rules.finally-Kept _ _ _ end_save _ _
          (Rules.catch-Kept _ _ _ _ (attempt sv s1) _ (attempt-Kept sv _ s1 f i1)
            (λ h e s2 i2. fail_save-Inv sv.current e s2 i2))
          end_save-Inv,
  )

  begin_save-Inv : (sv : Save) (s : Editor) → Inv p Stored s → Inv p Stored (begin_save sv s)
  unfolding begin_save
  begin_save-Inv sv s i = record { saved = i.saved; draft = i.draft; plain = i.plain }

  -- What the plan of a save must be for it to be carried out.
  abbrev pub PlanIsFaithful : Plan → Type 0
  PlanIsFaithful (started sv) = IsFaithful sv
  PlanIsFaithful _ = Unit

  pub await_save-Kept : (h : History) (s : Editor) → Inv p Stored s → Kept h (await_save s)
  unfolding await_save
  await_save-Kept h s i = ((i, tt), λ r s1 _ i1. done-Kept (ended r) h s1 i1)

  pub carry_out-Kept :
      (l : Plan) (h : History) (s : Editor)
      → PlanIsFaithful l
      → Inv p Stored s
      → Kept h (carry_out l s)
  unfolding carry_out
  carry_out-Kept settled h s f i = ((i, tt), λ r s1 _ i1. (i1, tt))
  carry_out-Kept (rejected e) h s f i = i
  carry_out-Kept (started sv) h s f i = save-Kept sv h _ f (begin_save-Inv sv s i)
  carry_out-Kept joined h s f i = await_save-Kept h s i
