-- ===== src/Editor/State.antt =====
-- The state of the code editor (web/editor-src/controller.js): the variables of the closure, the
-- text of the CodeMirror input and whether it can be edited.
use mysyncfiles.Prelude.{
  ℕ, Bool, true, false, not, ◌&&◌, ◌||◌, Option, none, some, [], ◌∷◌, Text, text_eq, ◌==◌,
  if◌then◌else◌,
}
use mysyncfiles.Exit.{Error}

-- A version of the file, as the server names it.
pub record Entry : Type 0 where
  pub path : Text
  pub revision : ℕ
  pub sha256 : Text

-- What a save under way has captured: `text`, `code`, `base` and `current` of `persist`.
pub record Save : Type 0 where
  pub text : Text
  pub code : Text
  pub base : ℕ
  pub current : ℕ

pub record Draft : Type 0 where
  pub text : Text
  pub code : Text
  pub base : ℕ

pub record Job : Type 0 where
  pub id : Text
  pub sha256 : Text

pub record Editor : Type 0 where
  pub path : Text
  pub entry : Option Entry
  pub value : Text
  pub saved_text : Text
  pub crlf : Bool
  pub timer : Bool
  pub saving : Option Save
  pub unconfirmed : Option Draft
  pub edit_allowed : Bool
  pub save_error : Option Error
  pub ready : Bool
  pub detecting : Bool
  pub starting : Bool
  pub departing : Bool
  pub job : Option Job
  pub polling : Bool
  pub last_run_text : Option Text
  pub cleared : Bool
  pub leaving : Bool
  pub opening : Bool
  pub generation : ℕ
  pub aborted : Bool
  pub read_only : Bool
  pub run_disabled : Bool

abbrev pub is_some {ℓ} : {A : Type ℓ} → Option A → Bool
is_some none = false
is_some (some a) = true

unfoldable pub dirty : Editor → Bool
dirty s = is_some s.entry && not (text_eq s.value s.saved_text)

-- `text.replace(/\n/g, eol)`
unfoldable pub to_eol : Bool → Text → Text
to_eol crlf [] = []
to_eol crlf (c ∷ t) =
    let rest = to_eol crlf t in if crlf && c == 10 then 13 ∷ 10 ∷ rest else c ∷ rest

unfoldable pub content : Editor → Text
unfolding to_eol
content s = to_eol s.crlf s.value

-- `content.includes("\r\n")`
unfoldable pub has_crlf : Text → Bool
has_crlf [] = false
has_crlf (c ∷ []) = false
has_crlf (c ∷ d ∷ t) = (c == 13 && d == 10) || has_crlf (d ∷ t)

-- `controls`: what the buttons and the input allow.
unfoldable pub controls : Editor → Editor
controls s = record s {
  run_disabled =
      s.starting
      || s.departing
      || (not (is_some s.job) && (not (is_some s.entry) || not s.ready || is_some s.save_error));
  read_only = not s.edit_allowed || s.starting || s.departing;
}

-- `schedule`: the pending timer is dropped, and a save is set if there is something to save.
unfoldable pub schedule : Editor → Editor
unfolding dirty
schedule s = record s {
  timer = dirty s && not (is_some s.saving) && not (is_some s.save_error) && s.edit_allowed;
}

-- `changed`, after the user has made the input's text `t`. The input takes no edit when read-only.
unfoldable pub edit : Text → Editor → Editor
unfolding schedule
edit t s = if s.read_only then s else schedule (record s { value = t })
