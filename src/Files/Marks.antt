-- ===== src/Files/Marks.antt =====
-- The mark of a search in a name, and the unit of a size (`highlighted` and `size`, web/atlas.js).
use mysyncfiles.Prelude.{
  ℕ, zero, suc, ◌+◌, ◌^◌, ◌≡◌, ◌≤◌, ◌<◌, refl, sym, ap, subst, ◌∙◌, ◌⊎◌, inl, inr, true, false,
  Option, none, some, [], ◌∷◌, ◌++◌, map, Text, length, take, drop, take-append-drop, ltb, ltb→lt,
  if-either, arith,
}
use mysyncfiles.Indent.{is_empty}
use mysyncfiles.Files.Drawn.{
  scale, starts_with, index_of, mark_at, highlighted, Marked, plain, marked,
}

map-take : (f : ℕ → ℕ) (n : ℕ) (t : Text) → map f (take n t) ≡ take n (map f t)
map-take f zero t = refl
map-take f (suc n) [] = refl
map-take f (suc n) (c ∷ t) = ap (λ r. f c ∷ r) (map-take f n t)

map-drop : (f : ℕ → ℕ) (n : ℕ) (t : Text) → map f (drop n t) ≡ drop n (map f t)
map-drop f zero t = refl
map-drop f (suc n) [] = refl
map-drop f (suc n) (c ∷ t) = map-drop f n t

length-map : (f : ℕ → ℕ) (t : Text) → length (map f t) ≡ length t
length-map f [] = refl
length-map f (c ∷ t) = ap suc (length-map f t)

starts_with-take : (s t : Text) → starts_with s t ≡ true → take (length s) t ≡ s
unfolding starts_with
starts_with-take [] t h = refl
starts_with-take (c ∷ s) [] h = cc
starts_with-take (c ∷ s) (d ∷ t) h =
    let same : c ≡ d = ground arith in
    let rest : starts_with s t ≡ true = ground arith in
    rw same (ap (λ r. d ∷ r) (starts_with-take s t rest))

-- Where a text is found it stands, and where it is not found it does not.
abbrev IsFound : Text → Text → Option ℕ → Type 0
IsFound s t none = (m : ℕ) → starts_with s (drop m t) ≡ false
IsFound s t (some n) = starts_with s (drop n t) ≡ true

drop-nil : (m : ℕ) → drop {A = ℕ} m [] ≡ []
drop-nil zero = refl
drop-nil (suc m) = refl

nowhere :
    (s t : Text) (d : ℕ) → starts_with s (d ∷ t) ≡ false → IsFound s t none → IsFound s (d ∷ t) none
nowhere s t d not_here h zero = not_here
nowhere s t d not_here h (suc m) = h m

later-IsFound :
    (s t : Text) (d : ℕ) (o : Option ℕ)
    → starts_with s (d ∷ t) ≡ false
    → IsFound s t o
    → IsFound s (d ∷ t) (elim o [ none ↦ none | some n ↦ some (suc n) ])
later-IsFound s t d none not_here h = nowhere s t d not_here h
later-IsFound s t d (some n) not_here h = h

index_of-IsFound : (s t : Text) → IsFound s t (index_of s t)
unfolding index_of
index_of-IsFound s [] =
    if-either (IsFound s []) (starts_with s []) (some 0) none (λ found. found)
      (λ not_here m. ap (starts_with s) (drop-nil m) ∙ not_here)
index_of-IsFound s (d ∷ t) =
    if-either (IsFound s (d ∷ t)) (starts_with s (d ∷ t)) (some 0) _ (λ found. found)
      (λ not_here. later-IsFound s t d (index_of s t) not_here (index_of-IsFound s t))

-- What is shown of a text for a search, where the lower case is that of each unit: the parts are the text,
-- and the mark is the search but for the case; or the search stands nowhere in the text.
abbrev pub Highlights : (ℕ → ℕ) → Text → Text → Marked → Type 0
Highlights low sought text (plain t) =
    (t ≡ text)
    × ((sought ≡ []) ⊎ ((m : ℕ) → starts_with (map low sought) (drop m (map low text)) ≡ false))
Highlights low sought text (marked before mark after) =
    (before ++ (mark ++ after) ≡ text) × (map low mark ≡ map low sought)

mark_at-Highlights :
    (low : ℕ → ℕ) (sought text : Text) (o : Option ℕ)
    → IsFound (map low sought) (map low text) o
    → Highlights low sought text (mark_at sought text o)
unfolding mark_at
mark_at-Highlights low sought text none h = (refl, inr h)
mark_at-Highlights low sought text (some n) h =
    let k = length sought in
    let here = drop n text in
    let whole : take n text ++ (take k here ++ drop k here) ≡ text =
      ap (λ r. take n text ++ r) (take-append-drop k here) ∙ take-append-drop n text in
    let found : map low (take k here) ≡ take (length (map low sought)) (drop n (map low text)) =
      map-take low k here
      ∙ ap (take k) (map-drop low n text)
      ∙ ap (λ j. take j (drop n (map low text))) (sym (length-map low sought)) in
    (whole, found ∙ starts_with-take (map low sought) (drop n (map low text)) h)

-- If the lower case of a text is that of each of its units, `highlighted` shows the whole text, in order:
-- it marks a part that is the search but for the case, or it shows the text as it is, and then the search
-- is empty or stands nowhere in it.
pub highlighted-Highlights :
    (low : ℕ → ℕ) (sought text : Text)
    → Highlights low sought text (highlighted (map low) sought text)
unfolding highlighted is_empty
highlighted-Highlights low [] text = (refl, inl refl)
highlighted-Highlights low (c ∷ sought) text =
    mark_at-Highlights low (c ∷ sought) text (index_of (map low (c ∷ sought)) (map low text))
      (index_of-IsFound (map low (c ∷ sought)) (map low text))

not_ltb→le : (a b : ℕ) → ltb a b ≡ false → b ≤ a
not_ltb→le a b h = ground arith

-- The unit of a size, from `unit` on and with `rounds` units above it.
pub record IsScaled (bytes unit rounds u : ℕ) : Type 0 where
  pub above : unit ≤ u
  pub below : u ≤ unit + rounds
  pub reaches : (u ≡ unit) ⊎ (1024 ^ u ≤ bytes)
  pub within : (u ≡ unit + rounds) ⊎ (bytes < 1024 ^ (u + 1))

-- The unit in which `size` writes a number of bytes is the first in which the number is below 1024, or the
-- last one; in any but the first the number is at least 1.
pub scale-IsScaled : (rounds bytes unit : ℕ) → IsScaled bytes unit rounds (scale rounds bytes unit)
unfolding scale
scale-IsScaled zero bytes unit = record {
  above = omega arith;
  below = omega arith;
  reaches = inl refl;
  within = inl (omega arith);
}
scale-IsScaled (suc rounds) bytes unit =
    if-either (IsScaled bytes unit (suc rounds)) (ltb bytes (1024 ^ (unit + 1))) unit
      (scale rounds bytes (unit + 1))
      (λ small. record {
        above = omega arith;
        below = omega arith;
        reaches = inl refl;
        within = inr (ltb→lt bytes (1024 ^ (unit + 1)) small);
      })
      (λ large.
        let i = scale-IsScaled rounds bytes (unit + 1) in
        record {
          above = omega (arith, i.above);
          below = omega (arith, i.below);
          reaches = elim i.reaches [
            | inl e ↦
                inr (
                  subst (λ x. 1024 ^ x ≤ bytes) (sym e)
                    (not_ltb→le bytes (1024 ^ (unit + 1)) large))
            | inr h ↦ inr h
          ];
          within = elim i.within [ inl e ↦ inl (omega (arith, e)) | inr h ↦ inr h ];
        })
