-- ===== src/Editor/Checks/Laws.antt =====
-- What the controller's tests establish of an answer that passes them.
use mysyncfiles.Prelude.{ℕ, ◌≡◌, true, false, some, ◌≤◌, ◌<◌, Text, arith, utf8_length, has_unit}
use mysyncfiles.Value.{Value, safe_nat, is_text, is_number, truthy, as_text}
use mysyncfiles.Exit.{ok}
use mysyncfiles.Http.{field, optional}
use mysyncfiles.Editor.State.{Entry}
use mysyncfiles.Editor.Checks.{limit, saved_entry, source_of}

-- What the reply to a save says, where it is accepted.
pub record Acknowledges (path sha256 : Text) (base size : ℕ) (v : Value) (e : Entry) : Type 0 where
  pub same_path : is_text (optional "path" v) path ≡ true
  pub digest : is_text (optional "sha256" v) sha256 ≡ true
  pub deleted : truthy (optional "deleted" v) ≡ false
  pub length : is_number (optional "size" v) size ≡ true
  pub version : safe_nat (optional "revision" v) ≡ some e.revision
  pub newer : base < e.revision

-- The reply to a save that is accepted names the path, the digest and the size of what was sent, is
-- not of a deleted file, and its revision, the new entry's, is greater than the base.
pub saved_entry-Acknowledges :
    (path sha256 : Text) (base size : ℕ) (v : Value) (e : Entry)
    → saved_entry path sha256 base size v ≡ ok e
    → Acknowledges path sha256 base size v e
unfolding saved_entry field optional
saved_entry-Acknowledges path sha256 base size v e h = ground arith

-- What the server's version says, where it is accepted, but for its digest.
pub record Describes (path : Text) (v : Value) (revision : ℕ) (content : Text) (h : Value)
    : Type 0 where
  pub same_path : is_text (optional "path" (optional "entry" v)) path ≡ true
  pub version : safe_nat (optional "revision" (optional "entry" v)) ≡ some revision
  pub text : as_text (optional "content" v) ≡ some content
  pub digest : optional "sha256" (optional "entry" v) ≡ h
  pub small : utf8_length content ≤ limit
  pub printable : has_unit 0 content ≡ false

-- A version that is accepted is of the file asked for, of the revision and the content that the answer
-- names, no longer than the limit in UTF-8 and without NUL; its digest is still to be compared.
pub source_of-Describes :
    (path : Text) (v : Value) (revision : ℕ) (content : Text) (h : Value)
    → source_of path v ≡ ok (revision, content, h)
    → Describes path v revision content h
unfolding source_of field optional
source_of-Describes path v revision content h e = ground arith
