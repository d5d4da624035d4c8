-- ===== src/Editor/Completes.antt =====
-- A flush while the user does not edit: with a server that stores what it is sent, and with one that
-- refuses it.
use mysyncfiles.Prelude.{
  ℕ, suc, ◌≡◌, refl, sym, ap, subst, ◌∙◌, true, false, not, some, none, Text, text_eq, text_eq_refl,
  utf8_length, leb, ◌==◌, ◌&&◌, if◌then◌else◌, arith,
}
use mysyncfiles.Value.{Value}
use mysyncfiles.Exit.{Error, ok, err}
use mysyncfiles.Http.{Answer, reply, failed, body_of}
use mysyncfiles.Prog.{modify, try_catch, throw, when, ◌>>◌}
use mysyncfiles.Prog.Serve.{
  serve, serve-bind, serve-catch, serve-finally, serve-bind_error, serve-catch_error,
  serve-finally_error,
}
use mysyncfiles.Editor.State.{Entry, Save, Editor, dirty, content, controls, schedule}
use mysyncfiles.Editor.Calls.{Call, hash, put_file, M}
use mysyncfiles.Editor.Checks.{limit, digest_of, saved_entry}
use mysyncfiles.Editor.Save.{
  confirm, fail_save, end_save, note_draft, attempt, save, begin_save, persist, plan, plan_of,
  plan_free, plan_dirty, carry_out, flush_loop, flush, throw_error,
}

module _ (env : Call → Answer) (sv : Save) (sha256 : Text) where
  -- The browser gives the content's digest, and the server's reply to the save is accepted.
  pub record IsStored (path : Text) (entry : Entry) : Type 0 where
    pub digests : digest_of (env (hash sv.code)) ≡ ok sha256
    pub value : Value
    pub stores : env (put_file path sv.base sv.code) ≡ reply 200 value
    pub accepted : saved_entry path sha256 sv.base (utf8_length sv.code) value ≡ ok entry

  serve-attempt :
      (entry : Entry) (s : Editor)
      → IsStored s.path entry
      → leb (utf8_length sv.code) limit ≡ true
      → (sv.current == s.generation) ≡ true
      → serve env (attempt sv s) ≡ (ok tt, confirm entry sv.text (note_draft sv s))
  unfolding attempt serve body_of note_draft confirm
  serve-attempt entry s h small same =
      rw small
        (rw (h.digests, serve) (rw (h.stores, serve) (rw same (rw (h.accepted, serve) refl))))

  serve-attempt_error :
      (e : Error) (s : Editor)
      → digest_of (env (hash sv.code)) ≡ ok sha256
      → env (put_file s.path sv.base sv.code) ≡ failed e
      → leb (utf8_length sv.code) limit ≡ true
      → serve env (attempt sv s) ≡ (err e, note_draft sv s)
  unfolding attempt serve body_of note_draft
  serve-attempt_error e s digests refused small =
      rw small (rw (digests, serve) (rw (refused, serve) refl))

  serve-save :
      (entry : Entry) (s : Editor)
      → IsStored s.path entry
      → leb (utf8_length sv.code) limit ≡ true
      → (sv.current == s.generation) ≡ true
      → serve env (save sv s) ≡ (ok tt, end_save (confirm entry sv.text (note_draft sv s)))
  unfolding save serve
  serve-save entry s h small same =
      let t = confirm entry sv.text (note_draft sv s) in
      let handler = λ (e : Error). modify (fail_save sv.current e) >> throw e in
      serve-finally env end_save (try_catch (attempt sv) handler s) tt t
        (serve-catch env handler (attempt sv s) tt t (serve-attempt entry s h small same))

  serve-save_error :
      (e : Error) (s : Editor)
      → digest_of (env (hash sv.code)) ≡ ok sha256
      → env (put_file s.path sv.base sv.code) ≡ failed e
      → leb (utf8_length sv.code) limit ≡ true
      → serve env (save sv s) ≡ (err e, end_save (fail_save sv.current e (note_draft sv s)))
  unfolding save serve
  serve-save_error e s digests refused small =
      let t = note_draft sv s in
      let handler = λ (e : Error). modify (fail_save sv.current e) >> throw e in
      serve-finally_error env end_save (try_catch (attempt sv) handler s) e
        (fail_save sv.current e t)
        (serve-catch_error env handler (attempt sv s) e t
          (serve-attempt_error e s digests refused small))

-- The end of `flush`.
abbrev throw_last : M (Unit {0})
throw_last s = throw_error s.save_error s

-- An editor that shows unsaved text, which it may save.
abbrev pub unsaved : Entry → Editor → Editor
unsaved entry s = record s {
  entry = some entry;
  saving = none;
  save_error = none;
  edit_allowed = true;
}

-- The save that it starts.
abbrev pub save_of : Entry → Editor → Save
save_of entry s = record {
  text = s.value;
  code = content s;
  base = entry.revision;
  current = s.generation;
}

-- The state in which that save begins.
abbrev started_state : Entry → Editor → Editor
started_state entry s = record (unsaved entry s) { timer = false; saving = some (save_of entry s) }

module _ (env : Call → Answer) (entry : Entry) (s : Editor) (sha256 : Text)
    (changed : text_eq s.value s.saved_text ≡ false)
    (small : leb (utf8_length (content s)) limit ≡ true) where
  serve-persist :
      serve env (persist (record (unsaved entry s) { timer = false }))
      ≡ serve env (save (save_of entry s) (started_state entry s))
  unfolding persist plan plan_of plan_free plan_dirty carry_out begin_save content
  serve-persist = rw changed refl

  -- What a flush leaves of the text that was unsaved.
  pub record HasSaved (entry' : Entry) (t : Editor) : Type 0 where
    pub known : t.entry ≡ some entry'
    pub clean : t.saved_text ≡ s.value
    pub kept : t.value ≡ s.value
    pub confirmed : t.unconfirmed ≡ none
    pub idle : t.saving ≡ none

  -- With a server that stores the text, a flush with two rounds or more ends well after one save, with
  -- the version that the server has made of the text.
  pub flush-HasSaved :
      (entry' : Entry) (fuel : ℕ)
      → IsStored env (save_of entry s) sha256 s.path entry'
      → ((serve env (flush (suc (suc fuel)) (unsaved entry s))).0 ≡ ok tt)
        × HasSaved entry' (serve env (flush (suc (suc fuel)) (unsaved entry s))).1
  unfolding flush flush_loop dirty throw_error end_save schedule controls confirm note_draft serve
  flush-HasSaved entry' fuel h =
      let same : (s.generation == s.generation) ≡ true = ground arith in
      let t =
        end_save (confirm entry' s.value (note_draft (save_of entry s) (started_state entry s))) in
      let stored : serve env (persist (record (unsaved entry s) { timer = false })) ≡ (ok tt, t) =
        serve-persist
        ∙ serve-save env (save_of entry s) sha256 entry' (started_state entry s) h small same in
      let u = record (unsaved entry s) { timer = false } in
      let again : serve env (flush_loop (suc fuel) t) ≡ (ok tt, t) =
        ap (λ b. serve env (when (not b) (persist >> flush_loop fuel) t)) (text_eq_refl s.value) in
      let loop : serve env (flush_loop (suc (suc fuel)) u) ≡ (ok tt, t) =
        ap (λ b. serve env (when (not b) (persist >> flush_loop (suc fuel)) u)) changed
        ∙ serve-bind env (λ _. flush_loop (suc fuel)) (persist u) tt t stored
        ∙ again in
      let run : serve env (flush (suc (suc fuel)) (unsaved entry s)) ≡ (ok tt, t) =
        serve-bind env (λ _. throw_last) (flush_loop (suc (suc fuel)) u) tt t loop in
      (
        ap (λ x. x.0) run,
        subst (λ x. HasSaved entry' x.1) (sym run)
            (record { known = refl; clean = refl; kept = refl; confirmed = refl; idle = refl }),
      )

  -- What a flush leaves of a text that the server has refused.
  pub record HasKept (e : Error) (t : Editor) : Type 0 where
    pub held : t.entry ≡ some entry
    pub unclean : t.saved_text ≡ s.saved_text
    pub whole : t.value ≡ s.value
    pub unconfirmed :
        t.unconfirmed ≡ some (record { text = s.value; code = content s; base = entry.revision })
    pub told : t.save_error ≡ some e
    pub free : t.saving ≡ none
    pub quiet : t.timer ≡ false

  -- With a server that refuses the text, a flush ends with its error, and the page keeps the text and the
  -- version that it was made from, holds the draft as unconfirmed, and sets no other save.
  pub flush-HasKept :
      (e : Error) (fuel : ℕ)
      → digest_of (env (hash (content s))) ≡ ok sha256
      → env (put_file s.path entry.revision (content s)) ≡ failed e
      → ((serve env (flush (suc fuel) (unsaved entry s))).0 ≡ err e)
        × HasKept e (serve env (flush (suc fuel) (unsaved entry s))).1
  unfolding flush flush_loop dirty throw_error end_save schedule controls fail_save note_draft serve
  flush-HasKept e fuel digests refused =
      let same : (s.generation == s.generation) ≡ true = ground arith in
      let sv = save_of entry s in
      let t = end_save (record (note_draft sv (started_state entry s)) { save_error = some e }) in
      let u = record (unsaved entry s) { timer = false } in
      let lost : serve env (persist u) ≡ (err e, t) =
        serve-persist
        ∙ serve-save_error env sv sha256 e (started_state entry s) digests refused small
        ∙ ap
            (λ b. (
              err e,
              end_save (
                  if b
                  then record (note_draft sv (started_state entry s)) { save_error = some e }
                  else note_draft sv (started_state entry s)),
            ))
            same in
      let loop : serve env (flush_loop (suc fuel) u) ≡ (err e, t) =
        ap (λ b. serve env (when (not b) (persist >> flush_loop fuel) u)) changed
        ∙ serve-bind_error env (λ _. flush_loop fuel) (persist u) e t lost in
      let run : serve env (flush (suc fuel) (unsaved entry s)) ≡ (err e, t) =
        serve-bind_error env (λ _. throw_last) (flush_loop (suc fuel) u) e t loop in
      let quiet : t.timer ≡ false =
        ap (λ b. true && not b && not false && not true && true) changed in
      (
        ap (λ x. x.0) run,
        subst (λ x. HasKept e x.1) (sym run)
            (record {
              held = refl;
              unclean = refl;
              whole = refl;
              unconfirmed = refl;
              told = refl;
              free = refl;
              quiet = quiet;
            }),
      )
