-- ===== src/Editor/Flushes.antt =====
-- A save captures what is to be stored, and a flush that ends well leaves nothing unsaved.
use mysyncfiles.Prelude.{
  ℕ, zero, suc, ◌≡◌, refl, false, Option, none, some, Text, text_eq, Bool-cases, inl, inr,
}
use mysyncfiles.Exit.{Error}
use mysyncfiles.Prog.{when}
use mysyncfiles.Prog.Rules
use mysyncfiles.Editor.State.{Entry, Save, Editor, dirty, content, is_some}
use mysyncfiles.Editor.Save.{
  plan, plan_of, plan_free, plan_dirty, await_save, persist, fire, flush_loop, flush, throw_error,
}
use mysyncfiles.Editor.Invariant.{Platform, Shows, EntryShows, Inv, IsPlatform}
use mysyncfiles.Editor.Saves.{
  History, Leaves, Kept, PlanIsFaithful, await_save-Kept, carry_out-Kept,
}

module _ (p : Platform) (Stored : ℕ → Text → Type 0) (platform : IsPlatform p) where
  plan_dirty-PlanIsFaithful :
      (error : Option Error) (entry : Entry) (s : Editor)
      → Shows p Stored entry.revision s.saved_text
      → Inv p Stored s
      → PlanIsFaithful p Stored (plan_dirty error entry s)
  unfolding plan_dirty content
  plan_dirty-PlanIsFaithful (some e) entry s v i = tt
  plan_dirty-PlanIsFaithful none entry s v i = elim (Bool-cases s.edit_allowed) [
    | inr refused ↦ rw refused tt
    | inl allowed ↦ rw allowed (record {
      encoded = platform.breaks s.crlf s.value i.plain;
      base_content = v.stored_content;
      base_stored = v.stored;
    })
  ]

  plan_free-PlanIsFaithful :
      (entry : Option Entry) (s : Editor)
      → EntryShows p Stored entry s.saved_text
      → Inv p Stored s
      → PlanIsFaithful p Stored (plan_free entry s)
  unfolding plan_free
  plan_free-PlanIsFaithful none s v i = tt
  plan_free-PlanIsFaithful (some entry) s v i = elim (Bool-cases (text_eq s.value s.saved_text)) [
    | inl same ↦ rw same tt
    | inr other ↦ rw other (plan_dirty-PlanIsFaithful s.save_error entry s v i)
  ]

  plan_of-PlanIsFaithful :
      (saving : Option Save) (s : Editor)
      → Inv p Stored s
      → PlanIsFaithful p Stored (plan_of saving s)
  unfolding plan_of
  plan_of-PlanIsFaithful none s i = plan_free-PlanIsFaithful s.entry s i.saved i
  plan_of-PlanIsFaithful (some sv) s i = tt

  -- A save that `persist` starts has captured the input's text, as it is to be stored, over a
  -- version that is stored.
  pub persist-Kept :
      (h : History p Stored) (s : Editor) → Inv p Stored s → Kept p Stored h (persist s)
  unfolding persist plan
  persist-Kept h s i = carry_out-Kept p Stored (plan s) h s (plan_of-PlanIsFaithful s.saving s i) i

  pub fire-Kept : (h : History p Stored) (s : Editor) → Inv p Stored s → Kept p Stored h (fire s)
  unfolding fire
  fire-Kept h s i =
      Rules.catch-Kept _ _ _ _ (persist (record s { timer = false })) h
        (persist-Kept h _ (record { saved = i.saved; draft = i.draft; plain = i.plain }))
        (λ h e s1 i1. (i1, tt))

  -- The loop of a flush ends well only when the input's text is the saved one.
  flush_loop-Leaves :
      (fuel : ℕ) (h : History p Stored) (s : Editor)
      → Inv p Stored s
      → Leaves p Stored (λ _ s'. dirty s' ≡ false) h (flush_loop fuel s)
  unfolding flush_loop
  flush_loop-Leaves zero h s i = i
  flush_loop-Leaves (suc fuel) h s i = elim (Bool-cases (dirty s)) [
    | inr clean ↦ rw clean (i, clean)
    | inl more ↦ rw more (
        Rules.seq-Leaves _ _ _ _ _ (persist s) h (persist-Kept h s i)
          (λ h1 _ s1 i1. flush_loop-Leaves fuel h1 s1 i1))
  ]

  -- A flush that ends without an error leaves a text that is saved and no error of a save, and keeps
  -- the invariant; this holds whatever happens to the editor while it waits, with any fuel.
  pub flush-Leaves :
      (fuel : ℕ) (h : History p Stored) (s : Editor)
      → Inv p Stored s
      → Leaves p Stored (λ _ s'. (dirty s' ≡ false) × (s'.save_error ≡ none)) h (flush fuel s)
  unfolding flush
  flush-Leaves fuel h s i =
      Rules.seq-Leaves _ _ _ _ _ (when (is_some s.saving) await_save unset) h
        (Rules.when-Kept _ _ _ (is_some s.saving) await_save h unset unset_Inv
          (λ _. await_save-Kept p Stored h unset unset_Inv))
        (λ h1 _ s1 i1.
          Rules.bind-Leaves _ _ _ _ (λ _ s'. dirty s' ≡ false) _ (flush_loop fuel s1) h1
            (flush_loop-Leaves fuel h1 s1 i1)
            (λ h2 _ s2 i2 clean. end s2.save_error h2 s2 i2 clean refl))
    where
      unset : Editor
      unset = record s { timer = false }

      unset_Inv : Inv p Stored unset
      unset_Inv = record { saved = i.saved; draft = i.draft; plain = i.plain }

      end :
          (e : Option Error) (h : History p Stored) (s : Editor)
          → Inv p Stored s
          → dirty s ≡ false
          → s.save_error ≡ e
          → Leaves p Stored
              (λ _ s'. (dirty s' ≡ false) × (s'.save_error ≡ none))
              h
              (throw_error e s)
      end none h s i clean e = (i, (clean, e))
      end (some x) h s i clean e = i

  pub flush-Kept :
      (fuel : ℕ) (h : History p Stored) (s : Editor)
      → Inv p Stored s
      → Kept p Stored h (flush fuel s)
  flush-Kept fuel h s i =
      Rules.Leaves-Kept _ _ _ (λ _ s'. (dirty s' ≡ false) × (s'.save_error ≡ none)) (flush fuel s) h
        (flush-Leaves fuel h s i)
