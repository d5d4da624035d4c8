-- ===== src/Exit.antt =====
-- The ways in which a piece of code ends: with a value, or by a `throw`.
use mysyncfiles.Prelude.{◌≡◌, refl, Bool, true, false, Text, String, is, if◌then◌else◌}

-- What a `throw` carries: the `code` of a `Failure`, where it is a string. Every other error
-- (TypeError, AbortError, a `Failure` whose code is no string) has no code that a test sees.
pub data Error : Type 0 where
  code : Text → Error
  other : Error

-- `error.code === "…"`
unfoldable pub code_is : Error → String → Bool
unfolding is
code_is (code c) s = is c s
code_is other s = false

pub data Exit (A : Type 0) : Type 0 where
  ok : A → Exit A
  err : Error → Exit A

-- `if (!b) throw …`
abbrev pub check : Bool → Error → Exit (Unit {0})
check b e = if b then ok tt else err e

module _ {A B : Type 0} where
  infixl 5 ◌>>=◌
  abbrev pub ◌>>=◌ : Exit A → (A → Exit B) → Exit B
  err thrown >>= after = err thrown
  ok value >>= after = after value

  -- A chain that ends well has come to its second part.
  pub >>=-eq-ok :
      (first : Exit A) (after : A → Exit B) {result : B}
      → (first >>= after) ≡ ok result
      → (value : A) × (first ≡ ok value) × (after value ≡ ok result)
  >>=-eq-ok (err thrown) after ends = cc
  >>=-eq-ok (ok value) after ends = (value, refl, ends)

infixl 5 ◌>>◌
abbrev pub ◌>>◌ : {B : Type 0} → Exit (Unit {0}) → Exit B → Exit B
first >> second = first >>= λ _. second

-- So has a check.
pub check-eq-ok : (test : Bool) (thrown : Error) → check test thrown ≡ ok tt → test ≡ true
check-eq-ok false thrown ends = cc
check-eq-ok true thrown ends = refl
