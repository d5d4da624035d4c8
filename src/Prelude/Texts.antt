-- ===== src/Prelude/Texts.antt =====
-- Texts as JavaScript has them: lists of UTF-16 code units.
use Prim.Native.Nat.{ℕ, ◌+◌}
use Prim.Native.Char.{code}
use Prim.Native.String.{String}
use mathlib.Core.Path.{◌≡◌, refl}
use mathlib.Core.Logic.{◌↔◌}
use mathlib.Core.Bool.{Bool, true, false, ◌&&◌, ◌||◌}
use mathlib.Core.List.{List, [], ◌∷◌, ◌++◌, map}
use native.Mathlib.Omega.{arith}
use mysyncfiles.Prelude.Tests.{ltb, leb, ◌==◌, if◌then◌else◌}

abbrev pub Text : Type 0
Text = List ℕ

-- The code units of a literal of the source (each is one unit: no literal has an astral character).
abbrev pub codes : String → Text
codes String.[] = []
codes (String.◌∷◌ c s) = code c ∷ codes s

-- `===` on strings.
unfoldable pub text_eq : Text → Text → Bool
text_eq [] [] = true
text_eq (x ∷ xs) (y ∷ ys) = x == y && text_eq xs ys
text_eq _ _ = false

pub text_eq_sound : (s t : Text) → text_eq s t ≡ true → s ≡ t
unfolding text_eq
text_eq_sound [] [] h = refl
text_eq_sound (x ∷ xs) (y ∷ ys) h = ground (arith, text_eq_sound xs ys)
text_eq_sound [] (y ∷ ys) h = cc
text_eq_sound (x ∷ xs) [] h = cc

pub text_eq_refl : (s : Text) → text_eq s s ≡ true
unfolding text_eq
text_eq_refl [] = refl
text_eq_refl (x ∷ xs) = ground (arith, text_eq_refl xs)

pub text_eq_iff : (s t : Text) → (text_eq s t ≡ true) ↔ (s ≡ t)
text_eq_iff s t = (text_eq_sound s t, λ e. rw e (text_eq_refl t))

-- A test against a literal of the source.
unfoldable pub is : Text → String → Bool
unfolding text_eq
is t s = text_eq t (codes s)

unfoldable pub is_any : Text → List String → Bool
unfolding is
is_any t [] = false
is_any t (s ∷ ss) = is t s || is_any t ss

-- `includes` of one code unit.
unfoldable pub has_unit : ℕ → Text → Bool
has_unit c [] = false
has_unit c (x ∷ xs) = x == c || has_unit c xs

-- The last `length suffix` code units, in lower case: what `/\.suffix$/i` tests. (Without the flag
-- `u`, no unit above 0x7f is equal to a letter of ASCII in another case.)
lower_unit : ℕ → ℕ
lower_unit c = if leb b'A' c && leb c b'Z' then c + 32 else c

unfoldable pub ends_with : Text → String → Bool
unfolding lower_unit text_eq
ends_with [] s = text_eq [] (codes s)
ends_with (c ∷ t) s = text_eq (map lower_unit (c ∷ t)) (codes s) || ends_with t s

-- `TextEncoder.encode(t).length`: a surrogate pair takes 4 bytes, and a lone surrogate, which is
-- encoded as U+FFFD, takes 3.
is_high : ℕ → Bool
is_high c = leb 0xd800 c && ltb c 0xdc00

is_low : ℕ → Bool
is_low c = leb 0xdc00 c && ltb c 0xe000

unit_bytes : ℕ → ℕ
unit_bytes c = if ltb c 0x80 then 1 else if ltb c 0x800 then 2 else 3

unfoldable pub utf8_length : Text → ℕ
unfolding is_high is_low unit_bytes
utf8_length [] = 0
utf8_length (c ∷ []) = unit_bytes c
utf8_length (c ∷ d ∷ t) =
    let pair = 4 + utf8_length t in
    let single = unit_bytes c + utf8_length (d ∷ t) in
    if is_high c && is_low d then pair else single

utf8_length_runs : utf8_length (codes "é€" ++ 0xd83d ∷ 0xde00 ∷ 0xd83d ∷ []) ≡ 12
unfolding utf8_length
utf8_length_runs = refl
