-- ===== src/Editor/Invariant.antt =====
-- What holds of the editor between two segments of its handlers, and what is assumed of the answers
-- to its calls.
use mysyncfiles.Prelude.{ℕ, ◌≡◌, Bool, true, false, Option, none, some, Text, has_unit}
use mysyncfiles.Value.{Value, safe_nat, is_text, as_text}
use mysyncfiles.Exit.{ok}
use mysyncfiles.Http.{Answer, body_of, optional}
use mysyncfiles.Editor.State.{Entry, Draft, Editor, to_eol}
use mysyncfiles.Editor.Calls.{Call, hash, put_file, get_file, post_ticket, start}
use mysyncfiles.Editor.Checks.{digest_of}

-- What CodeMirror does to a text that it is given, and what the digest of a text is.
pub record Platform : Type 0 where
  pub normalise : Text → Text
  pub digest : Text → Text

-- What CodeMirror documents of it: its lines are parted by LF, CR or CRLF, and joined by LF.
pub record IsPlatform (p : Platform) : Type 0 where
  pub no_return : (t : Text) → has_unit 13 (p.normalise t) ≡ false
  pub breaks : (crlf : Bool) (t : Text) → has_unit 13 t ≡ false → p.normalise (to_eol crlf t) ≡ t

module _ (p : Platform) where
  -- The draft is of this content over this base, and its text is what the input shows of it.
  abbrev pub DraftOf : ℕ → Text → Option Draft → Type 0
  DraftOf base c none = ⊥
  DraftOf base c (some d) = (d.base ≡ base) × (d.code ≡ c) × (p.normalise c ≡ d.text)

-- `Stored r c`: at some time the server has stored the content `c` as revision `r` of the file.
module _ (p : Platform) (Stored : ℕ → Text → Type 0) where
  -- A stored version that the input shows as `t`.
  pub record Shows (r : ℕ) (t : Text) : Type 0 where
    pub stored_content : Text
    pub stored : Stored r stored_content
    pub shown : p.normalise stored_content ≡ t

  abbrev pub EntryShows : Option Entry → Text → Type 0
  EntryShows none t = Unit
  EntryShows (some e) t = Shows e.revision t

  abbrev pub DraftIsFaithful : Option Draft → Type 0
  DraftIsFaithful none = Unit
  DraftIsFaithful (some d) = p.normalise d.code ≡ d.text

  pub record Inv (s : Editor) : Type 0 where
    pub saved : EntryShows s.entry s.saved_text
    pub draft : DraftIsFaithful s.unconfirmed
    pub plain : has_unit 13 s.value ≡ false

  -- An answer that names a version with the digest of a content tells of one that is stored.
  abbrev pub Genuine : Call → Answer → Type 0
  Genuine (hash t) a = (h : Text) → digest_of a ≡ ok h → h ≡ p.digest t
  Genuine (put_file path base c) a =
      (v : Value) (r : ℕ)
      → body_of a ≡ ok v
      → safe_nat (optional "revision" v) ≡ some r
      → is_text (optional "sha256" v) (p.digest c) ≡ true
      → Stored r c
  Genuine (get_file path) a =
      (v : Value) (r : ℕ) (c : Text)
      → body_of a ≡ ok v
      → safe_nat (optional "revision" (optional "entry" v)) ≡ some r
      → as_text (optional "content" v) ≡ some c
      → is_text (optional "sha256" (optional "entry" v)) (p.digest c) ≡ true
      → Stored r c
  Genuine _ a = Unit

  -- A save is sent over a base that is stored; a run is asked for a stored version that is what the
  -- input shows.
  abbrev pub Sends : Call → Editor → Type 0
  Sends (put_file path base c) s = (b : Text) × Stored base b × DraftOf p base c s.unconfirmed
  Sends (post_ticket (start path r h id)) s = Shows r s.value
  Sends _ s = Unit
