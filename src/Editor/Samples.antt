-- ===== src/Editor/Samples.antt =====
-- A platform that can be computed with, and a session of the editor on it: a file is opened, its
-- tools are detected, and it is run.
use mysyncfiles.Prelude.{
  ℕ, ◌≡◌, refl, sym, subst, Bool, true, false, ◌&&◌, [], ◌∷◌, Text, codes, has_unit, arith, ◌==◌,
  if◌then◌else◌, ends_with, utf8_length, text_eq, some, ◌++◌,
}
use mysyncfiles.Value.{
  get, safe_nat, as_text, is_text, truthy, digest_text, Value, str, num, pos, bool, null, obj, prop,
  end,
}
use mysyncfiles.Exit.{ok}
use mysyncfiles.Http.{Answer, reply, body_of, field, optional, is_ok}
use mysyncfiles.Prog.Threads.{System, here, next, start as starts, resumed, settle}
use mysyncfiles.Editor.State.{Editor, to_eol, edit, content, has_crlf}
use mysyncfiles.Editor.Calls.{Call, get_file}
use mysyncfiles.Editor.Invariant.{Platform, IsPlatform, Genuine}
use mysyncfiles.Editor.Checks.{source_of, digest_of}
use mysyncfiles.Editor.Reports.{tools_check}
use mysyncfiles.Editor.Run.{local_body, detect, run_clicked}
use mysyncfiles.Editor.Open.{open_file}
use mysyncfiles.Editor.Save.{fire}
use mysyncfiles.Prog.{modify}
use mysyncfiles.Editor.Reachable.{initial, opened, clicked, edited, fired, Reaches}

-- Lines that end with LF, CR or CRLF are joined by LF; `cr` tells that a CR has just been read.
unfoldable pub join_lines : Bool → Text → Text
join_lines cr [] = []
join_lines cr (c ∷ t) =
    let after = join_lines true t in
    let rest = join_lines false t in
    if c == 13 then 10 ∷ after else if cr && c == 10 then rest else c ∷ rest

join_lines-no_return : (cr : Bool) (t : Text) → has_unit 13 (join_lines cr t) ≡ false
unfolding join_lines has_unit
join_lines-no_return cr [] = refl
join_lines-no_return cr (c ∷ t) =
    ground (arith, join_lines-no_return true t, join_lines-no_return false t)

join_lines-to_eol :
    (crlf : Bool) (t : Text) → has_unit 13 t ≡ false → join_lines false (to_eol crlf t) ≡ t
unfolding join_lines to_eol has_unit
join_lines-to_eol crlf [] h = refl
join_lines-to_eol crlf (c ∷ t) h = ground (arith, join_lines-to_eol crlf t)

-- The digest of a text is the text itself.
abbrev pub sample : Platform
sample = record { normalise = join_lines false; digest = λ t. t }

pub sample-IsPlatform : IsPlatform sample
sample-IsPlatform = record { no_return = join_lines-no_return false; breaks = join_lines-to_eol }

-- The only version that the server has stored is the third, and holds two lines.
abbrev pub file : Text
file = codes "a.py"

abbrev pub program : Text
program = codes "x=1" ++ 13 ∷ 10 ∷ codes "y" ++ 13 ∷ 10 ∷ []

abbrev pub HasStored : ℕ → Text → Type 0
HasStored r c = (r ≡ 3) × (c ≡ program)

abbrev pub document : Value
document = obj (
    prop "entry"
      (obj (
        prop "path" (str file) (
          prop "revision" (num (pos 3))
            (prop "deleted" (bool false) (prop "sha256" (str program) end)))))
      (prop "content" (str program) end))

abbrev issued : Value
issued = obj (
    prop "ticket" (str (codes "0123456789abcdef0123456789abcdef0123456789abcdef0123456789abcdef"))
      end)

abbrev toolbox : Value
toolbox = obj (prop "python" (bool true) (prop "isolation" (bool true) (prop "compiler" null end)))

abbrev Page : Type 0
Page = System Call Answer Editor

-- The last thread goes on with an answer.
abbrev play : Answer → Page → Page
play a y = elim y.pool [
  | [] ↦ y
  | t ∷ rest ↦ settle ((t.pending, a) ∷ t.history) (t.resume a y.state) rest y.made
]

abbrev blank : Page
blank = record { state = initial file; pool = []; made = [] }

abbrev asked : Page
asked = settle [] (open_file sample.normalise detect (initial file)) [] []

abbrev loaded : Page
loaded = play (reply 200 document) asked

-- What a run of the session computes with.
unfoldable pub session : Unit {0}
unfolding open_file run_clicked detect join_lines ends_with body_of source_of field get safe_nat
    optional as_text is_text truthy utf8_length has_unit text_eq digest_of is_ok local_body
    digest_text tools_check
session = tt

abbrev pub shown : Page
shown = play (reply 200 (str program)) loaded

document-Genuine : Genuine sample HasStored (get_file file) (reply 200 document)
unfolding session
document-Genuine v r c body version content digest =
    let same : document ≡ v = cc in
    let known : safe_nat (optional "revision" (optional "entry" document)) ≡ some r =
      subst (λ x. safe_nat (optional "revision" (optional "entry" x)) ≡ some r) (sym same)
        version in
    let held : as_text (optional "content" document) ≡ some c =
      subst (λ x. as_text (optional "content" x) ≡ some c) (sym same) content in
    (cc, cc)

digest-Genuine : (h : Text) → digest_of (reply 200 (str program)) ≡ ok h → h ≡ program
unfolding session
digest-Genuine h e = cc

pub shown-IsReached : Reaches sample HasStored sample-IsPlatform file shown
unfolding session
shown-IsReached =
    next
      (next
        (next here
          (starts (open_file sample.normalise detect) (initial file) [] [] (opened (initial file))))
        (resumed _ [] [] _ _ (reply 200 document) (document-Genuine)))
      (resumed _ [] [] _ _ (reply 200 (str program)) (λ h e. digest-Genuine h e))

abbrev granted : Answer
granted = reply 200 (obj end)

abbrev detecting : Page
detecting = play granted (play granted shown)

abbrev ready : Page
ready = play (reply 200 toolbox) (play (reply 200 issued) detecting)

abbrev pub running : Page
running = settle [] (run_clicked 1 (codes "job") ready.state) ready.pool ready.made

pub running-IsReached : Reaches sample HasStored sample-IsPlatform file running
unfolding session
running-IsReached =
    next
      (next
        (next
          (next (next shown-IsReached (resumed _ [] [] _ _ granted tt))
            (resumed _ [] [] _ _ granted tt))
          (resumed _ [] [] _ _ (reply 200 issued) tt))
        (resumed _ [] [] _ _ (reply 200 toolbox) tt))
      (starts (run_clicked 1 (codes "job")) _ [] _ (clicked 1 (codes "job") _))

-- In the same session the user adds a letter, and the save's timer fires.
abbrev pub longer_program : Text
longer_program = codes "x=1" ++ 13 ∷ 10 ∷ codes "yy" ++ 13 ∷ 10 ∷ []

abbrev longer_text : Text
longer_text = codes "x=1" ++ 10 ∷ codes "yy" ++ 10 ∷ []

abbrev editable : Page
editable = play granted shown

abbrev pub edited_page : Page
edited_page = settle [] (modify (edit longer_text) editable.state) editable.pool editable.made

abbrev fired_page : Page
fired_page = settle [] (fire edited_page.state) edited_page.pool edited_page.made

abbrev pub sending : Page
sending = play (reply 200 (str longer_program)) (play granted fired_page)

longer-Genuine : (h : Text) → digest_of (reply 200 (str longer_program)) ≡ ok h → h ≡ longer_program
unfolding session
longer-Genuine h e = cc

editable-IsReached : Reaches sample HasStored sample-IsPlatform file editable
unfolding session
editable-IsReached = next shown-IsReached (resumed _ [] [] _ _ granted tt)

edited_page-IsReached : Reaches sample HasStored sample-IsPlatform file edited_page
unfolding session edit
edited_page-IsReached = next editable-IsReached (
    starts (modify (edit longer_text)) editable.state editable.pool editable.made
      (edited longer_text _ refl))

fired_page-IsReached : Reaches sample HasStored sample-IsPlatform file fired_page
unfolding session edit fire
fired_page-IsReached =
    next edited_page-IsReached
      (starts fire edited_page.state edited_page.pool edited_page.made (fired _ refl))

ticked-IsReached : Reaches sample HasStored sample-IsPlatform file (play granted fired_page)
unfolding session edit fire to_eol content has_crlf
ticked-IsReached = next fired_page-IsReached (resumed _ [] editable.pool _ _ granted tt)

pub sending-IsReached : Reaches sample HasStored sample-IsPlatform file sending
unfolding session edit fire to_eol content has_crlf
sending-IsReached =
    next ticked-IsReached
      (resumed _ [] editable.pool _ _ (reply 200 (str longer_program)) (λ h e. longer-Genuine h e))
