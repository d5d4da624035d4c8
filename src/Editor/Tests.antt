-- ===== src/Editor/Tests.antt =====
-- The theorems about the editor at a session in which a file is opened, and run.
use mysyncfiles.Prelude.{
  ◌≡◌, refl, true, false, none, ◌⊎◌, [], ◌∷◌, ◌++◌, Text, codes, Memᴰ, has_unit, text_eq,
}
use mysyncfiles.Prelude.{◌+◌, utf8_length, leb}
use mysyncfiles.Value.{null}
use mysyncfiles.Exit.{ok, err}
use mysyncfiles.Http.{Answer, reply, failed, failure}
use mysyncfiles.Prog.Serve.{serve}
use mysyncfiles.Editor.Calls.{Call, hash, put_file}
use mysyncfiles.Editor.Checks.{digest_of, valid, limit}
use mysyncfiles.Editor.Completes.{
  IsStored, save_of, unsaved, HasSaved, HasKept, flush-HasSaved, flush-HasKept,
}
use mysyncfiles.Editor.State.{Entry, Editor, dirty, content, to_eol, has_crlf, edit}
use mysyncfiles.Editor.Invariant.{Shows, DraftOf}
use mysyncfiles.Editor.Open.{adopt}
use mysyncfiles.Editor.Save.{fire}
use mysyncfiles.Editor.Content.{content-adopt}
use mysyncfiles.Editor.Reachable.{initial, clean_is_stored, started_is_shown, sent_over_stored}
use mysyncfiles.Value.{
  get, is_text, is_number, truthy, safe_nat, obj, prop, str, num, pos, bool, end,
}
use mysyncfiles.Http.{field}
use mysyncfiles.Editor.Save.{flush}
use mysyncfiles.Editor.Checks.{saved_entry}
use mysyncfiles.Editor.Flushes.{flush-Leaves}
use mysyncfiles.Editor.Saves.{Leaves}
use mysyncfiles.Editor.Open.{lock}
use mysyncfiles.Editor.Locks.{IsLocked, KeepsDraft, IsEmptied, lock_lem}
use mysyncfiles.Editor.Samples.{
  edited_page, session, sample, sample-IsPlatform, file, program, HasStored, shown, shown-IsReached,
  running, running-IsReached, sending, sending-IsReached, longer_program,
}

clean_is_stored_example : Shows sample HasStored 3 (codes "x=1" ++ 10 ∷ codes "y" ++ 10 ∷ [])
unfolding session dirty
clean_is_stored_example =
    clean_is_stored sample HasStored sample-IsPlatform file shown
      (record { path = file; revision = 3; sha256 = program }) shown-IsReached refl refl

started_is_shown_example : Shows sample HasStored 3 running.state.value
unfolding session
started_is_shown_example =
    started_is_shown sample HasStored sample-IsPlatform file running running.state file 3 program
      (codes "job") running-IsReached (Memᴰ.head refl)

sent_over_stored_example :
    (b : Text) × HasStored 3 b × DraftOf sample 3 longer_program sending.state.unconfirmed
unfolding session edit fire to_eol content has_crlf
sent_over_stored_example =
    sent_over_stored sample HasStored sample-IsPlatform file sending sending.state file 3
      longer_program sending-IsReached (Memᴰ.head refl)

content-adopt_example :
    content (
      adopt sample.normalise
        (record {
          entry = record { path = file; revision = 3; sha256 = program };
          content = program;
        })
        (initial file))
    ≡ program
unfolding to_eol has_unit
content-adopt_example =
    content-adopt sample sample-IsPlatform
      (record { entry = record { path = file; revision = 3; sha256 = program }; content = program })
      (initial file) true (codes "x=1" ++ 10 ∷ codes "y" ++ 10 ∷ []) refl refl

flush-Leaves_example :
    Leaves sample HasStored
      (λ _ s. (dirty s ≡ false) × (s.save_error ≡ none))
      []
      (flush 3 edited_page.state)
unfolding session edit
flush-Leaves_example =
    flush-Leaves sample HasStored sample-IsPlatform 3 [] edited_page.state (record {
      saved = record { stored_content = program; stored = (refl, refl); shown = refl };
      draft = tt;
      plain = refl;
    })

lock_lem_example :
    IsLocked edited_page.state (lock edited_page.state).0
    × (((dirty edited_page.state ≡ true)
          × KeepsDraft edited_page.state (lock edited_page.state).0
          × ((lock edited_page.state).1 ≡ true))
        ⊎ ((dirty edited_page.state ≡ false)
            × IsEmptied (lock edited_page.state).0
            × ((lock edited_page.state).1 ≡ false)))
lock_lem_example = lock_lem edited_page.state

-- An editor with unsaved text, a server that stores it, and one that refuses it.
abbrev known_entry : Entry
known_entry = record { path = file; revision = 3; sha256 = codes "w" }

abbrev stored_entry : Entry
stored_entry = record { path = file; revision = 4; sha256 = codes "x" }

abbrev typed : Editor
typed = record (initial file) { value = codes "x"; saved_text = codes "w" }

unfoldable storing : Call → Answer
storing (hash c) = reply 200 (str c)
storing (put_file path base c) = reply 200 (
    obj (
      prop "path" (str path) (
        prop "revision" (num (pos (base + 1)))
          (prop "sha256" (str c) (prop "deleted" (bool false) (prop "size" (num (pos 1)) end))))))
storing _ = reply 200 null

unfoldable refusing : Call → Answer
refusing (hash c) = reply 200 (str c)
refusing _ = failed (failure "revision_changed")

storing-IsStored : IsStored storing (save_of known_entry typed) (codes "x") file stored_entry
unfolding storing content to_eol digest_of saved_entry valid field get safe_nat is_text is_number
    truthy text_eq utf8_length
storing-IsStored = record { digests = refl; value = _; stores = refl; accepted = refl }

typed_changed : text_eq typed.value typed.saved_text ≡ false
unfolding text_eq
typed_changed = refl

typed_small : leb (utf8_length (content typed)) limit ≡ true
unfolding utf8_length content to_eol
typed_small = refl

flush-HasSaved_example :
    ((serve storing (flush 2 (unsaved known_entry typed))).0 ≡ ok tt)
    × HasSaved storing known_entry typed
        (codes "x")
        typed_changed
        typed_small
        stored_entry
        (serve storing (flush 2 (unsaved known_entry typed))).1
flush-HasSaved_example =
    flush-HasSaved storing known_entry typed (codes "x") typed_changed typed_small stored_entry 0
      storing-IsStored

flush-HasKept_example :
    ((serve refusing (flush 1 (unsaved known_entry typed))).0 ≡ err (failure "revision_changed"))
    × HasKept refusing known_entry typed
        (codes "x")
        typed_changed
        typed_small
        (failure "revision_changed")
        (serve refusing (flush 1 (unsaved known_entry typed))).1
unfolding refusing digest_of content
flush-HasKept_example =
    flush-HasKept refusing known_entry typed (codes "x") typed_changed typed_small
      (failure "revision_changed") 0 refl refl
