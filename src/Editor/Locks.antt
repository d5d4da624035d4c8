-- ===== src/Editor/Locks.antt =====
-- What `lock` and the edits leave.
use mysyncfiles.Prelude.{◌≡◌, true, false, none, some, [], arith, ◌⊎◌, ◌<◌}
use mysyncfiles.Http.{failure}
use mysyncfiles.Editor.State.{Editor, dirty}
use mysyncfiles.Editor.Open.{lock}

-- A lock with an unsaved draft keeps the text, the version that it was made from and what is saved of
-- it, and says so by its result.
pub record KeepsDraft (s t : Editor) : Type 0 where
  pub text : t.value ≡ s.value
  pub version : t.entry ≡ s.entry
  pub saved : t.saved_text ≡ s.saved_text
  pub stopped : t.save_error ≡ some (failure "session_expired")

-- Without a draft nothing of the file is left in the editor.
pub record IsEmptied (t : Editor) : Type 0 where
  pub text : t.value ≡ []
  pub version : t.entry ≡ none
  pub saved : t.saved_text ≡ []

-- Whatever the editor was doing, a locked editor is read-only, saves and runs nothing by itself, and
-- has made the answers under way stale.
pub record IsLocked (s t : Editor) : Type 0 where
  pub closed : t.read_only ≡ true
  pub idle : t.timer ≡ false
  pub unpolled : t.polling ≡ false
  pub jobless : t.job ≡ none
  pub cut : t.aborted ≡ true
  pub stale : s.generation < t.generation
  pub no_run : t.run_disabled ≡ true

-- `lock` locks the editor in every state; it keeps an unsaved draft, and then returns true, and
-- otherwise empties the editor, and returns false.
pub lock_lem :
    (s : Editor)
    → IsLocked s (lock s).0
      × (((dirty s ≡ true) × KeepsDraft s (lock s).0 × ((lock s).1 ≡ true))
          ⊎ ((dirty s ≡ false) × IsEmptied (lock s).0 × ((lock s).1 ≡ false)))
unfolding lock
lock_lem s = ground arith
