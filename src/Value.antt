-- ===== src/Value.antt =====
-- The JavaScript values that a parsed response holds, and the tests that the pages make on them:
-- property access, truthiness, `typeof … === "string"`, `Number.isSafeInteger`, `===`, and the
-- regular expressions on digests and upload identifiers.
use text.Mathlib.Text.{◌==◌ as str_eq}
use mysyncfiles.Prelude.{
  ℕ, zero, ◌≤◌, ◌≡◌, refl, Bool, true, false, ◌&&◌, ◌||◌, Option, none, some, String, List, [], ◌∷◌,
  arith, Text, codes, text_eq, leb, ltb, ◌==◌, if◌then◌else◌, length, all, take, drop,
}

-- A number is an integer, `negsuc n` being -(n + 1), or has a fractional part and is kept as its text.
pub data Number : Type 0 where
  pos : ℕ → Number
  negsuc : ℕ → Number
  fraction : Text → Number

mutual
  pub data Value : Type 0 where
    undefined null : Value
    bool : Bool → Value
    num : Number → Value
    str : Text → Value
    arr : Items → Value
    obj : Props → Value

  pub data Items : Type 0 where
    nil : Items
    cons : Value → Items → Items

  pub data Props : Type 0 where
    end : Props
    prop : String → Value → Props → Props

unfoldable pub props_get : String → Props → Value
props_get key end = undefined
props_get key (prop k v ps) = if str_eq k key then v else props_get key ps

-- `value.key`; `none` is the TypeError of a property of `null` or `undefined`. No property that the
-- pages read by this function exists on the other primitive values or on arrays.
unfoldable pub get : String → Value → Option Value
unfolding props_get
get key undefined = none
get key null = none
get key (obj ps) = some (props_get key ps)
get key _ = some undefined

abbrev pub max_safe : ℕ
max_safe = 9007199254740991

-- `Number.isSafeInteger(v) && v >= 0`, with the number.
unfoldable pub safe_nat : Value → Option ℕ
safe_nat (num (pos n)) = if leb n max_safe then some n else none
safe_nat _ = none

-- `Number.isSafeInteger(v)`
unfoldable pub is_safe_integer : Value → Bool
is_safe_integer (num (pos n)) = leb n max_safe
is_safe_integer (num (negsuc n)) = ltb n max_safe
is_safe_integer _ = false

unfoldable pub is_null : Value → Bool
is_null null = true
is_null _ = false

-- `v == null`
unfoldable pub is_nullish : Value → Bool
is_nullish null = true
is_nullish undefined = true
is_nullish _ = false

unfoldable pub truthy : Value → Bool
truthy undefined = false
truthy null = false
truthy (bool b) = b
truthy (num (pos zero)) = false
truthy (str []) = false
truthy _ = true

-- `typeof v === "string"`, with the text.
unfoldable pub as_text : Value → Option Text
as_text (str t) = some t
as_text _ = none

-- `v === n` for a number of the source.
unfoldable pub is_number : Value → ℕ → Bool
is_number (num (pos m)) n = m == n
is_number _ _ = false

-- `v === "…"`
unfoldable pub is_text : Value → Text → Bool
is_text (str s) t = text_eq s t
is_text _ _ = false

unfoldable pub items : Items → List Value
items nil = []
items (cons v vs) = v ∷ items vs

-- `[a-f0-9]`
unfoldable pub is_hex : ℕ → Bool
is_hex c = (leb b'a' c && leb c b'f') || (leb b'0' c && leb c b'9')

-- `/^[a-f0-9]{64}$/`
unfoldable pub is_digest : Text → Bool
unfolding is_hex
is_digest t = length t == 64 && all is_hex t

-- `/^[a-f0-9]{64}$/.test(v)`, with the text that is tested. An array of one element is tested as
-- that element; no number, boolean, object or other array has a text that matches.
unfoldable pub digest_text : Value → Option Text
unfolding is_digest
digest_text (str t) = if is_digest t then some t else none
digest_text (arr (cons v nil)) = digest_text v
digest_text _ = none

-- `String(v)` for a property's name, where it can be one of the names of the source.
unfoldable pub key_text : Value → Text
key_text (str t) = t
key_text (arr (cons v nil)) = key_text v
key_text _ = []

-- The parts of the regular expression that a dash or the end closes.
hex_part : ℕ → Text → Bool
unfolding is_hex
hex_part n t = length (take n t) == n && all is_hex (take n t)

dash_part : ℕ → Text → Bool
unfolding hex_part
dash_part n [] = false
dash_part n (c ∷ t) = c == b'-' && hex_part n t

-- `/^[a-f0-9]{8}(-[a-f0-9]{4}){3}-[a-f0-9]{12}$/`
unfoldable pub is_uuid : Text → Bool
unfolding hex_part dash_part
is_uuid t =
    length t == 36
    && hex_part 8 t
    && dash_part 4 (drop 8 t)
    && dash_part 4 (drop 13 t)
    && dash_part 4 (drop 18 t)
    && dash_part 12 (drop 23 t)

pub safe_nat-le : (v : Value) {n : ℕ} → safe_nat v ≡ some n → n ≤ max_safe
unfolding safe_nat
safe_nat-le v h = ground arith

is_uuid_runs : is_uuid (codes "0123abcd-0123-4567-89ab-0123456789ab") ≡ true
unfolding is_uuid
is_uuid_runs = refl

get_runs : get "b" (obj (prop "a" null (prop "b" (num (pos 3)) end))) ≡ some (num (pos 3))
unfolding get
get_runs = refl
