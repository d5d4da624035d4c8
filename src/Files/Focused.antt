-- ===== src/Files/Focused.antt =====
-- The keys of an entry's menu, and the buttons that it offers.
use native.Mathlib.Nat.{mod-lt, mod-eq_of_lt, mod-add-mod, add-mod-mod, add-mod_right}
use mysyncfiles.Prelude.{
  ℕ, zero, suc, ◌+◌, ◌-◌, ◌%◌, ◌<◌, ◌≡◌, refl, sym, ap, ◌∙◌, true, Option, some, List, [], ◌∷◌,
  ◌++◌, length, get_elem?, replicate, arith,
}
use mysyncfiles.Value.{Value}
use mysyncfiles.Files.State.{Session}
use mysyncfiles.Files.Menu.{Action}
use mysyncfiles.Files.Keys.{
  Key, arrow_down, arrow_up, home_key, end_key, actions, is_offered, buttons, place_of, target,
  press, press_all, focused,
}
use mysyncfiles.Files.Buttons.{
  IsDistinct, get-buttons, buttons-IsDistinct, buttons-get, all_actions, get_some, place_among-get,
}

-- A key that is pressed with the focus on the button at `i` moves it to the button at the target.
press-target :
    (k : Key) (bs : List Action) (i : ℕ)
    → IsDistinct bs
    → i < length bs
    → press k bs (get_elem? bs i) ≡ get_elem? bs (target k (suc i) (length bs))
unfolding press place_of
press-target k bs i d l =
    let (a, at) = get_some bs i l in rw at (rw (place_among-get bs i a d at) refl)

target-lt : (k : Key) (place n : ℕ) → 0 < n → target k place n < n
unfolding target
target-lt home_key place n h = h
target-lt end_key place n h = omega arith
target-lt arrow_down place n h = mod-lt (place + n) h
target-lt arrow_up place n h = mod-lt (place + n - 2) h

press_all-get :
    (ks : List Key) (bs : List Action) (i : ℕ)
    → IsDistinct bs
    → i < length bs
    → (j : ℕ) × (j < length bs) × (press_all ks bs (get_elem? bs i) ≡ get_elem? bs j)
unfolding press_all
press_all-get [] bs i d l = (i, l, refl)
press_all-get (k ∷ ks) bs i d l = rw (press-target k bs i d l) (
    press_all-get ks bs (target k (suc i) (length bs)) d
      (target-lt k (suc i) (length bs) (omega arith)))

press_all-append :
    (ks ls : List Key) (bs : List Action) (active : Option Action)
    → press_all (ks ++ ls) bs active ≡ press_all ls bs (press_all ks bs active)
unfolding press_all
press_all-append [] ls bs active = refl
press_all-append (k ∷ ks) ls bs active = press_all-append ks ls bs (press k bs active)

-- As many downward arrows as `n` move the focus on by `n`, around the end.
downs-get :
    (n : ℕ) (bs : List Action) (i : ℕ)
    → IsDistinct bs
    → i < length bs
    → press_all (replicate n arrow_down) bs (get_elem? bs i) ≡ get_elem? bs ((i + n) % length bs)
unfolding press_all target
downs-get zero bs i d l =
    ap (get_elem? bs)
      (sym (mod-eq_of_lt l) ∙ ap (λ x. x % length bs) (let e : i ≡ i + 0 = omega arith in e))
downs-get (suc n) bs i d l =
    ap (press_all (replicate n arrow_down) bs) (press-target arrow_down bs i d l)
    ∙ downs-get n bs (target arrow_down (suc i) (length bs)) d
        (target-lt arrow_down (suc i) (length bs) (omega arith))
    ∙ ap (get_elem? bs) (moved i n (length bs))
  where
    moved : (i n len : ℕ) → (target arrow_down (suc i) len + n) % len ≡ (i + suc n) % len
    moved i n len =
        mod-add-mod (suc i + len) len n
        ∙ ap (λ x. x % len) (let e : suc i + len + n ≡ i + suc n + len = omega arith in e)
        ∙ add-mod_right (i + suc n) len

around : (i j len : ℕ) → i < len → j < len → (i + (j + len - i) % len) % len ≡ j
around i j len l h =
    add-mod-mod i (j + len - i) len
    ∙ ap (λ x. x % len) (let e : i + (j + len - i) ≡ j + len = omega arith in e)
    ∙ add-mod_right j len
    ∙ mod-eq_of_lt h

-- Where the focus is after the keys `ks` in the menu of the entry `v`, and how the button `a` is
-- reached from there.
pub record IsWithinReach (v : Value) (session : Option Session) (ks : List Key) (a : Action)
    : Type 0 where
  pub at : Action
  pub is_at : focused v session ks ≡ some at
  pub at_offered : is_offered v session at ≡ true
  pub downs : ℕ
  pub few : downs < length (buttons v session)
  pub reached : focused v session (ks ++ replicate downs arrow_down) ≡ some a

-- Whatever keys are pressed in the menu of an entry, the focus is on a button that is neither hidden
-- nor disabled, and fewer downward arrows than the menu has such buttons lead from there to any of
-- them.
pub focused-IsWithinReach :
    (v : Value) (session : Option Session) (ks : List Key) (a : Action)
    → is_offered v session a ≡ true
    → IsWithinReach v session ks a
unfolding focused buttons
focused-IsWithinReach v session ks a h =
    let bs : List Action = buttons v session in
    let (j, within, at) = buttons-get v session a actions (all_actions a) h in
    let (i, inside, e) = press_all-get ks bs 0 (buttons-IsDistinct v session) (omega arith) in
    let (b, here) = get_some bs i inside in
    record {
      at = b;
      is_at = e ∙ here;
      at_offered = get-buttons v session actions i b here;
      downs = (j + length bs - i) % length bs;
      few = mod-lt (j + length bs - i) (omega arith);
      reached =
          press_all-append ks (replicate ((j + length bs - i) % length bs) arrow_down) bs
            (get_elem? bs 0)
          ∙ ap (press_all (replicate ((j + length bs - i) % length bs) arrow_down) bs) e
          ∙ downs-get ((j + length bs - i) % length bs) bs i (buttons-IsDistinct v session) inside
          ∙ ap (get_elem? bs) (around i j (length bs) inside within)
          ∙ at;
    }
