-- ===== src/Editor/Retries.antt =====
-- Opening a file and the retry button keep the invariant.
use mysyncfiles.Prelude.{
  ℕ, ◌+◌, ◌≡◌, refl, ap, subst, ◌∙◌, not, ◌&&◌, ◌||◌, Option, none, some, Text, ◌==◌, ltb, text_eq,
  text_eq_sound, ends_with, Bool-cases, inl, inr,
}
use mysyncfiles.Exit.{Exit, ok, err}
use mysyncfiles.Prog.{Prog, modify, pure, when, try_catch, ◌>>◌}
use mysyncfiles.Prog.Rules
use mysyncfiles.Http.{Answer}
use mysyncfiles.Editor.State.{Entry, Draft, Editor, dirty, to_eol, controls, is_some}
use mysyncfiles.Editor.Calls.{Call, edit}
use mysyncfiles.Editor.Open.{
  Source, authorize, load_source, allow_edit, begin_open, end_open, take_remote, reconcile_draft,
  reconcile_entry, reconcile, reload, confirm_draft, set_error, grant_edit, adopt, adopt_and_detect,
  open_body, open_anew, open_file, retry_body, retry,
}
use mysyncfiles.Editor.Invariant.{Platform, IsPlatform, DraftIsFaithful, Inv}
use mysyncfiles.Editor.Saves.{History, Kept, try-Kept}
use mysyncfiles.Editor.Flushes.{flush-Kept}
use mysyncfiles.Editor.Opens.{
  controls-Inv, authorize-Kept, IsGenuine, load_source-Leaves, allow_edit-Inv,
}

module _ (p : Platform) (Stored : ℕ → Text → Type 0) (platform : IsPlatform p) where
  abbrev ExitInv : Exit Editor → Type 0
  ExitInv (ok s) = Inv p Stored s
  ExitInv (err e) = Unit

  take_remote-Inv :
      (remote : Source) (text : Text) (s : Editor)
      → Stored remote.entry.revision remote.content
      → p.normalise remote.content ≡ text
      → Inv p Stored s
      → Inv p Stored (take_remote remote text s)
  unfolding take_remote
  take_remote-Inv remote text s stored shown i = record {
    saved = record { stored_content = remote.content; stored = stored; shown = shown };
    draft = tt;
    plain = i.plain;
  }

  -- A draft is taken for the server's version only if that has its content.
  reconcile_draft-ExitInv :
      (d : Option Draft) (remote : Source) (s : Editor)
      → DraftIsFaithful p Stored d
      → Stored remote.entry.revision remote.content
      → Inv p Stored s
      → ExitInv (reconcile_draft d remote s)
  unfolding reconcile_draft
  reconcile_draft-ExitInv none remote s faithful stored i = tt
  reconcile_draft-ExitInv (some d) remote s faithful stored i =
      elim (Bool-cases (text_eq remote.content d.code)) [
        | inr other ↦ rw other tt
        | inl same ↦ rw same (elim (Bool-cases (ltb d.base remote.entry.revision)) [
          | inr old ↦ rw old tt
          | inl newer ↦ rw newer (
              take_remote-Inv remote d.text s stored
                (ap p.normalise (text_eq_sound _ _ same) ∙ faithful) i)
        ])
      ]

  reconcile_entry-ExitInv :
      (e : Option Entry) (remote : Source) (s : Editor)
      → Stored remote.entry.revision remote.content
      → Inv p Stored s
      → ExitInv (reconcile_entry e remote s)
  unfolding reconcile_entry
  reconcile_entry-ExitInv none remote s stored i = tt
  reconcile_entry-ExitInv (some e) remote s stored i =
      elim (Bool-cases (remote.entry.revision == e.revision)) [
        | inl known ↦ rw known (record { saved = i.saved; draft = i.draft; plain = i.plain })
        | inr moved ↦ rw moved (elim (Bool-cases (text_eq remote.content (to_eol s.crlf s.value))) [
          | inl same ↦ rw same (
              take_remote-Inv remote s.value s stored
                (ap p.normalise (text_eq_sound _ _ same) ∙ platform.breaks s.crlf s.value i.plain)
                i)
          | inr other ↦ rw other (reconcile_draft-ExitInv s.unconfirmed remote s i.draft stored i)
        ])
      ]

  reload-Kept : (h : History p Stored) (s : Editor) → Inv p Stored s → Kept p Stored h (reload s)
  unfolding reload reconcile
  reload-Kept h s i =
      Rules.bind-Leaves _ _ _ _ (IsGenuine p Stored) _ (load_source s) h
        (load_source-Leaves p Stored h s i)
        (λ h1 remote s1 i1 stored.
          Rules.of_exit-Leaves _ _ _ _ h1 s1 i1 (reconcile remote s1) _ (λ s2 e. (
            inv (reconcile remote s1) s2 e (reconcile_entry-ExitInv s1.entry remote s1 stored i1),
            tt,
          )))
    where
      inv : (x : Exit Editor) (s : Editor) → x ≡ ok s → ExitInv x → Inv p Stored s
      inv (ok s) s' e j = subst (Inv p Stored) (cc) j
      inv (err e') s' e j = cc

  confirm_draft-Kept :
      (fuel : ℕ) (h : History p Stored) (s : Editor)
      → Inv p Stored s
      → Kept p Stored h (confirm_draft fuel s)
  unfolding confirm_draft
  confirm_draft-Kept fuel h s i =
      Rules.seq-Leaves _ _ _ _ _ (authorize edit s) h (authorize-Kept p Stored edit h s i)
        (λ h1 _ s1 i1.
          Rules.seq-Leaves _ _ _ _ _ (when (is_some s1.save_error) reload (allow_edit s1)) h1
            (Rules.when-Kept _ _ _ (is_some s1.save_error) reload h1 (allow_edit s1)
              (allow_edit-Inv p Stored s1 i1)
              (λ _. reload-Kept h1 (allow_edit s1) (allow_edit-Inv p Stored s1 i1)))
            (λ h2 _ s2 i2.
              flush-Kept p Stored platform fuel h2 (controls s2) (controls-Inv p Stored s2 i2)))

  begin_open-Inv : (s : Editor) → Inv p Stored s → Inv p Stored (begin_open s)
  unfolding begin_open
  begin_open-Inv s i = record { saved = i.saved; draft = i.draft; plain = i.plain }

  end_open-Inv : (s : Editor) → Inv p Stored s → Inv p Stored (end_open s)
  unfolding end_open
  end_open-Inv s i = record { saved = i.saved; draft = i.draft; plain = i.plain }

  adopt-Inv :
      (source : Source) (s : Editor)
      → Stored source.entry.revision source.content
      → Inv p Stored s
      → Inv p Stored (adopt p.normalise source s)
  unfolding adopt
  adopt-Inv source s stored i = record {
    saved = record { stored_content = source.content; stored = stored; shown = refl };
    draft = i.draft;
    plain = platform.no_return source.content;
  }

  grant_edit-Kept :
      (h : History p Stored) (s : Editor) → Inv p Stored s → Kept p Stored h (grant_edit s)
  unfolding grant_edit
  grant_edit-Kept h s i =
      Rules.seq-Leaves _ _ _ _ _ (authorize edit s) h (authorize-Kept p Stored edit h s i)
        (λ h1 _ s1 i1. (allow_edit-Inv p Stored s1 i1, tt))

  -- `detect` stands for a handler that keeps the invariant.
  module _ (detect : Editor → Prog Call Answer Editor (Unit {0}))
      (detect-Kept : (h : History p Stored) (s : Editor)
        → Inv p Stored s
        → Kept p Stored h (detect s)) where
    adopt_and_detect-Kept :
        (current : ℕ) (source : Source) (h : History p Stored) (s : Editor)
        → Stored source.entry.revision source.content
        → Inv p Stored s
        → Kept p Stored h (adopt_and_detect p.normalise current source detect s)
    unfolding adopt_and_detect
    adopt_and_detect-Kept current source h s stored i =
        let s0 = adopt p.normalise source s in
        Rules.seq-Leaves _ _ _ _ _ (try_catch grant_edit (λ e. pure tt) s0) h
          (Rules.catch-Kept _ _ _ _ (grant_edit s0) h
            (grant_edit-Kept h s0 (adopt-Inv source s stored i)) (λ _ _ s1 i1. (i1, tt)))
          (λ h1 _ s1 i1.
            Rules.when-Kept _ _ _ (current == s1.generation) (do modify controls; detect) h1 s1 i1
              (λ _. detect-Kept h1 (controls s1) (controls-Inv p Stored s1 i1)))

    open_body-Kept :
        (current : ℕ) (h : History p Stored) (s : Editor)
        → Inv p Stored s
        → Kept p Stored h (open_body p.normalise current detect s)
    unfolding open_body
    open_body-Kept current h s i =
        Rules.guard-Leaves _ _ _ _ h s i (ends_with s.path ".py" || ends_with s.path ".c") _ _ λ _.
          Rules.bind-Leaves _ _ _ _ (IsGenuine p Stored) _ (load_source s) h
            (load_source-Leaves p Stored h s i)
            (λ h1 source s1 i1 stored.
              Rules.when-Kept _ _ _ (current == s1.generation && not (dirty s1))
                (adopt_and_detect p.normalise current source detect) h1 s1 i1
                (λ _. adopt_and_detect-Kept current source h1 s1 stored i1))

    open_anew-Kept :
        (current : ℕ) (h : History p Stored) (s : Editor)
        → Inv p Stored s
        → Kept p Stored h (open_anew p.normalise current detect s)
    unfolding open_anew
    open_anew-Kept current h s i =
        try-Kept p Stored (λ _. pure tt) end_open
          (open_body p.normalise current detect (begin_open s)) h
          (open_body-Kept current h (begin_open s) (begin_open-Inv s i)) (λ _ _ s1 i1. (i1, tt))
          end_open-Inv

    pub open_file-Kept :
        (h : History p Stored) (s : Editor)
        → Inv p Stored s
        → Kept p Stored h (open_file p.normalise detect s)
    unfolding open_file
    open_file-Kept h s i =
        Rules.if-Kept _ _ _ s.opening _ _ h (λ _. ((i, tt), λ r s1 _ i1. (i1, tt)))
          (λ _.
            Rules.if-Kept _ _ _ (is_some s.entry && not s.aborted) (pure tt s)
              (open_anew p.normalise (s.generation + 1) detect s) h (λ _. (i, tt))
              (λ _. open_anew-Kept (s.generation + 1) h s i))

    retry_body-Kept :
        (fuel : ℕ) (h : History p Stored) (s : Editor)
        → Inv p Stored s
        → Kept p Stored h (retry_body p.normalise fuel detect s)
    unfolding retry_body
    retry_body-Kept fuel h s i =
        Rules.if-Kept _ _ _ (is_some s.entry) (confirm_draft fuel s)
          (open_file p.normalise detect s) h (λ _. confirm_draft-Kept fuel h s i)
          (λ _. open_file-Kept h s i)

    pub retry-Kept :
        (fuel : ℕ) (h : History p Stored) (s : Editor)
        → Inv p Stored s
        → Kept p Stored h (retry p.normalise fuel detect s)
    unfolding retry set_error
    retry-Kept fuel h s i =
        try-Kept p Stored (λ e. modify (set_error e)) controls
          (retry_body p.normalise fuel detect s) h (retry_body-Kept fuel h s i)
          (λ _ _ s1 i1. (record { saved = i1.saved; draft = i1.draft; plain = i1.plain }, tt))
          (controls-Inv p Stored)
