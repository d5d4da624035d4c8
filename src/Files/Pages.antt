-- ===== src/Files/Pages.antt =====
-- The cursors of a listing.
use mysyncfiles.Prelude.{
  ℕ, zero, suc, ◌+◌, ◌-◌, ◌≡◌, ◌<◌, refl, sym, ap, ◌∙◌, some, List, [], ◌∷◌, ◌++◌, Text, length,
  length-append, length-take, take, get_elem?, arith,
}
use mysyncfiles.Files.State.{View}
use mysyncfiles.Files.Listing.{next_view, previous_view, cursor_of}

-- A view whose page has its cursor.
abbrev pub HasCursor : View → Type 0
HasCursor v = v.page_index < length v.cursors

get-snoc : (a : List Text) (x : Text) → get_elem? (a ++ x ∷ []) (length a) ≡ some x
get-snoc [] x = refl
get-snoc (y ∷ a) x = get-snoc a x

get-take :
    (n i : ℕ) (a b : List Text) → i < n → i < length a → get_elem? (take n a ++ b) i ≡ get_elem? a i
get-take zero i a b h k = let bad : ⊥ = omega (arith, h) in elim bad [ ]
get-take (suc n) i [] b h k = let bad : ⊥ = omega (arith, k) in elim bad [ ]
get-take (suc n) zero (x ∷ a) b h k = refl
get-take (suc n) (suc i) (x ∷ a) b h k = get-take n i a b (omega (arith, h)) (omega (arith, k))

-- The next page is asked for by the cursor that the answer gave; from it the button of the previous
-- page asks for the page that was shown, by its own cursor, and both have a cursor.
pub next_view-previous_view :
    (next : Text) (v : View)
    → HasCursor v
    → (cursor_of (next_view next v) ≡ some next)
      × (cursor_of (previous_view (next_view next v)) ≡ cursor_of v)
      × ((previous_view (next_view next v)).page_index ≡ v.page_index)
      × HasCursor (next_view next v)
unfolding next_view previous_view cursor_of
next_view-previous_view next v h =
    let size : length (take (v.page_index + 1) v.cursors) ≡ v.page_index + 1 =
      omega (arith, length-take (v.page_index + 1) v.cursors, h) in
    let back : v.page_index + 1 - 1 ≡ v.page_index = omega arith in
    (
      ap (get_elem? (take (v.page_index + 1) v.cursors ++ next ∷ [])) (sym size)
          ∙ get-snoc (take (v.page_index + 1) v.cursors) next,
      rw back (get-take (v.page_index + 1) v.page_index v.cursors (next ∷ []) (omega arith) h),
      back,
      omega (arith, size, length-append (take (v.page_index + 1) v.cursors) (next ∷ [])),
    )
