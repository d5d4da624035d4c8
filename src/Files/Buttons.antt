-- ===== src/Files/Buttons.antt =====
-- The buttons of an entry's menu, and their places.
use mysyncfiles.Prelude.{
  ℕ, zero, suc, ◌<◌, ◌≡◌, refl, subst, Bool-cases, inl, inr, true, false, Option, some,
  some-injective, List, [], ◌∷◌, Memᴰ, length, get_elem?, All, arith,
}
use mysyncfiles.Value.{Value}
use mysyncfiles.Files.State.{Session}
use mysyncfiles.Files.Menu.{
  Action, opening, editing, details, renaming, deleting, downloading, copying,
}
use mysyncfiles.Files.Keys.{actions, same_action, is_offered, buttons_among, buttons, place_among}

same_action_refl : (a : Action) → same_action a a ≡ true
same_action_refl editing = refl
same_action_refl opening = refl
same_action_refl downloading = refl
same_action_refl details = refl
same_action_refl copying = refl
same_action_refl renaming = refl
same_action_refl deleting = refl

pub IsDistinct : List Action → Type 0
IsDistinct [] = Unit
IsDistinct (a ∷ xs) = All (λ b. same_action a b ≡ false) xs × IsDistinct xs

All-buttons_among :
    (v : Value) (session : Option Session) (P : Action → Type 0) (xs : List Action)
    → All P xs
    → All P (buttons_among v session xs)
unfolding buttons_among
All-buttons_among v session P [] h = tt
All-buttons_among v session P (a ∷ xs) h = elim (Bool-cases (is_offered v session a)) [
  | inl shown ↦ rw shown (h.0, All-buttons_among v session P xs h.1)
  | inr other ↦ rw other (All-buttons_among v session P xs h.1)
]

buttons_among-IsDistinct :
    (v : Value) (session : Option Session) (xs : List Action)
    → IsDistinct xs
    → IsDistinct (buttons_among v session xs)
unfolding buttons_among IsDistinct
buttons_among-IsDistinct v session [] h = tt
buttons_among-IsDistinct v session (a ∷ xs) h = elim (Bool-cases (is_offered v session a)) [
  | inl shown ↦
      rw shown (All-buttons_among v session _ xs h.0, buttons_among-IsDistinct v session xs h.1)
  | inr other ↦ rw other (buttons_among-IsDistinct v session xs h.1)
]

pub get-buttons :
    (v : Value) (session : Option Session) (xs : List Action) (i : ℕ) (a : Action)
    → get_elem? (buttons_among v session xs) i ≡ some a
    → is_offered v session a ≡ true
unfolding buttons_among
get-buttons v session [] i a h = let bad : ⊥ = cc in elim bad [ ]
get-buttons v session (b ∷ xs) zero a h = elim (Bool-cases (is_offered v session b)) [
  | inl shown ↦
      subst (λ x. is_offered v session x ≡ true) (some-injective _ _ (rw shown at h)) shown
  | inr other ↦ get-buttons v session xs zero a (rw other at h)
]
get-buttons v session (b ∷ xs) (suc i) a h = elim (Bool-cases (is_offered v session b)) [
  | inl shown ↦ get-buttons v session xs i a (rw shown at h)
  | inr other ↦ get-buttons v session xs (suc i) a (rw other at h)
]

-- A button that is offered stands somewhere among those that are.
pub buttons-get :
    (v : Value) (session : Option Session) (a : Action) (xs : List Action)
    → Memᴰ a xs
    → is_offered v session a ≡ true
    → (i : ℕ) × (i < length (buttons_among v session xs))
      × (get_elem? (buttons_among v session xs) i ≡ some a)
unfolding buttons_among
buttons-get v session a [] m h = elim m [ ]
buttons-get v session a (b ∷ xs) (Memᴰ.head e) h =
    subst
      (λ x.
        (i : ℕ) × (i < length (buttons_among v session (x ∷ xs)))
        × (get_elem? (buttons_among v session (x ∷ xs)) i ≡ some a))
      e (rw h (0, omega arith, refl))
buttons-get v session a (b ∷ xs) (Memᴰ.tail m) h = elim (Bool-cases (is_offered v session b)) [
  | inl shown ↦
      rw shown (let (i, l, at) = buttons-get v session a xs m h in (suc i, omega arith, at))
  | inr other ↦ rw other (buttons-get v session a xs m h)
]

pub all_actions : (a : Action) → Memᴰ a actions
all_actions editing = Memᴰ.head refl
all_actions opening = Memᴰ.tail (Memᴰ.head refl)
all_actions downloading = Memᴰ.tail (Memᴰ.tail (Memᴰ.head refl))
all_actions details = Memᴰ.tail (Memᴰ.tail (Memᴰ.tail (Memᴰ.head refl)))
all_actions copying = Memᴰ.tail (Memᴰ.tail (Memᴰ.tail (Memᴰ.tail (Memᴰ.head refl))))
all_actions renaming = Memᴰ.tail (Memᴰ.tail (Memᴰ.tail (Memᴰ.tail (Memᴰ.tail (Memᴰ.head refl)))))
all_actions deleting =
    Memᴰ.tail (Memᴰ.tail (Memᴰ.tail (Memᴰ.tail (Memᴰ.tail (Memᴰ.tail (Memᴰ.head refl))))))

get-All :
    (P : Action → Type 0) (xs : List Action) (i : ℕ) (a : Action)
    → All P xs
    → get_elem? xs i ≡ some a
    → P a
get-All P [] i a h at = let bad : ⊥ = cc in elim bad [ ]
get-All P (x ∷ xs) zero a h at = subst P (some-injective _ _ at) h.0
get-All P (x ∷ xs) (suc i) a h at = get-All P xs i a h.1 at

pub get_some : (xs : List Action) (i : ℕ) → i < length xs → (a : Action) × (get_elem? xs i ≡ some a)
get_some [] i l = elim l [ ]
get_some (x ∷ xs) zero l = (x, refl)
get_some (x ∷ xs) (suc i) l = get_some xs i (omega arith)

pub place_among-get :
    (xs : List Action) (i : ℕ) (a : Action)
    → IsDistinct xs
    → get_elem? xs i ≡ some a
    → place_among a xs ≡ suc i
unfolding place_among IsDistinct
place_among-get [] i a d at = let bad : ⊥ = cc in elim bad [ ]
place_among-get (x ∷ xs) zero a d at =
    subst (λ b. place_among b (x ∷ xs) ≡ 1) (some-injective _ _ at) (rw (same_action_refl x) refl)
place_among-get (x ∷ xs) (suc i) a d at =
    rw (get-All _ xs i a d.0 at) (rw (place_among-get xs i a d.1 at) refl)

pub buttons-IsDistinct : (v : Value) (session : Option Session) → IsDistinct (buttons v session)
unfolding buttons IsDistinct
buttons-IsDistinct v session = buttons_among-IsDistinct v session actions (
  (refl, (refl, (refl, (refl, (refl, (refl, tt)))))),
  (
    (refl, (refl, (refl, (refl, (refl, tt))))),
    (
      (refl, (refl, (refl, (refl, tt)))),
      ((refl, (refl, (refl, tt))), ((refl, (refl, tt)), ((refl, tt), (tt, tt)))),
    ),
  ),
)
