-- ===== src/Editor/Content.antt =====
-- Line endings: what is opened and not edited would be saved as it was.
use mysyncfiles.Prelude.{
  ℕ, ◌≡◌, refl, sym, ap, ◌∙◌, Bool, true, false, [], ◌∷◌, Text, has_unit, arith, ◌==◌, Bool-cases,
  inl, inr,
}
use mysyncfiles.Editor.State.{Editor, to_eol, has_crlf, content}
use mysyncfiles.Editor.Open.{Source, adopt}
use mysyncfiles.Editor.Invariant.{Platform, IsPlatform}

to_eol-false : (t : Text) → to_eol false t ≡ t
unfolding to_eol
to_eol-false [] = refl
to_eol-false (c ∷ t) = ap (λ l. c ∷ l) (to_eol-false t)

-- A text with no LF is left as it is.
to_eol-true_plain : (t : Text) → has_unit 10 t ≡ false → to_eol true t ≡ t
unfolding to_eol has_unit
to_eol-true_plain [] h = refl
to_eol-true_plain (c ∷ t) h = ground (arith, to_eol-true_plain t)

has_crlf-plain : (t : Text) → has_unit 13 t ≡ false → has_crlf t ≡ false
unfolding has_crlf has_unit
has_crlf-plain [] h = refl
has_crlf-plain (c ∷ []) h = refl
has_crlf-plain (c ∷ d ∷ t) h = ground (arith, has_crlf-plain (d ∷ t))

-- A text with an LF has a CRLF once its lines end so.
has_crlf-cons : (c : ℕ) (t : Text) → has_crlf t ≡ true → has_crlf (c ∷ t) ≡ true
unfolding has_crlf
has_crlf-cons c [] h = cc
has_crlf-cons c (d ∷ t) h = ground arith

has_crlf-to_eol : (t : Text) → has_unit 10 t ≡ true → has_crlf (to_eol true t) ≡ true
unfolding to_eol has_unit
has_crlf-to_eol [] h = cc
has_crlf-to_eol (c ∷ t) h = elim (Bool-cases (c == 10)) [
  | inl line ↦ rw line (unfold has_crlf in refl)
  | inr other ↦ rw other (has_crlf-cons c (to_eol true t) (has_crlf-to_eol t (ground arith)))
]

-- The line ending that is found gives the text back.
to_eol-has_crlf :
    (crlf : Bool) (t : Text)
    → has_unit 13 t ≡ false
    → to_eol (has_crlf (to_eol crlf t)) t ≡ to_eol crlf t
to_eol-has_crlf false t h =
    let no_crlf : has_crlf (to_eol false t) ≡ false = rw (to_eol-false t) (has_crlf-plain t h) in
    rw no_crlf
to_eol-has_crlf true t h = elim (Bool-cases (has_unit 10 t)) [
  | inl lines ↦ rw (has_crlf-to_eol t lines)
  | inr one ↦
      let same : to_eol true t ≡ t = to_eol-true_plain t one in
      let no_crlf : has_crlf (to_eol true t) ≡ false = rw same (has_crlf-plain t h) in
      rw no_crlf (to_eol-false t ∙ sym same)
]

-- A file whose lines end all with LF or all with CRLF, and which has no other CR, is shown so that
-- what would be saved, with no edit made, is the file as it was opened.
pub content-adopt :
    (p : Platform) (platform : IsPlatform p) (source : Source) (s : Editor) (crlf : Bool) (t : Text)
    → has_unit 13 t ≡ false
    → source.content ≡ to_eol crlf t
    → content (adopt p.normalise source s) ≡ source.content
unfolding content adopt
content-adopt p platform source s crlf t plain e =
    rw (e, platform.breaks crlf t plain) (to_eol-has_crlf crlf t plain)
