-- ===== src/Files/Keys.antt =====
-- The buttons of an entry's menu, and the keys that move the focus over them (web/atlas.js:
-- `openMenu`, and the handler of the menu's `keydown`). The order of the buttons is that of the page.
use mysyncfiles.Prelude.{
  ℕ, ◌+◌, ◌-◌, ◌%◌, zero, suc, Bool, false, not, ◌&&◌, Option, none, some, List, [], ◌∷◌, ◌==◌,
  if◌then◌else◌, length, get_elem?,
}
use mysyncfiles.Value.{Value}
use mysyncfiles.Files.State.{Session}
use mysyncfiles.Files.Selection.{is_folder}
use mysyncfiles.Files.Browse.{editable}
use mysyncfiles.Files.Menu.{
  Action, opening, editing, details, renaming, deleting, downloading, copying,
}

abbrev pub actions : List Action
actions = editing ∷ opening ∷ downloading ∷ details ∷ copying ∷ renaming ∷ deleting ∷ []

-- `hidden` and `disabled` of a button, once the menu is opened for an entry.
unfoldable pub is_hidden : Value → Action → Bool
is_hidden v opening = not (is_folder v)
is_hidden v renaming = not (is_folder v)
is_hidden v deleting = not (is_folder v)
is_hidden v downloading = is_folder v
is_hidden v copying = is_folder v
is_hidden v editing = not (editable v)
is_hidden v details = false

-- `session?.manage_limit`
unfoldable pub may_manage : Option Session → Bool
may_manage none = false
may_manage (some session) = session.manage_allowed

unfoldable pub is_disabled : Option Session → Action → Bool
unfolding may_manage
is_disabled session renaming = not (may_manage session)
is_disabled session deleting = not (may_manage session)
is_disabled session opening = false
is_disabled session downloading = false
is_disabled session copying = false
is_disabled session editing = false
is_disabled session details = false

unfoldable pub is_offered : Value → Option Session → Action → Bool
unfolding is_hidden is_disabled
is_offered v session a = not (is_hidden v a) && not (is_disabled session a)

-- `querySelectorAll("button:not([hidden]):not(:disabled)")`
unfoldable pub buttons_among : Value → Option Session → List Action → List Action
unfolding is_offered
buttons_among v session [] = []
buttons_among v session (a ∷ xs) =
    let rest = buttons_among v session xs in if is_offered v session a then a ∷ rest else rest

unfoldable pub buttons : Value → Option Session → List Action
unfolding buttons_among
buttons v session = buttons_among v session actions

pub data Key : Type 0 where
  arrow_down arrow_up home_key end_key : Key

abbrev pub code_of : Action → ℕ
code_of editing = 0
code_of opening = 1
code_of downloading = 2
code_of details = 3
code_of copying = 4
code_of renaming = 5
code_of deleting = 6

abbrev pub same_action : Action → Action → Bool
same_action a b = code_of a == code_of b

abbrev pub later : ℕ → ℕ
later zero = 0
later (suc n) = suc (suc n)

-- One more than `buttons.indexOf(document.activeElement)`, which is -1 for another element.
unfoldable pub place_among : Action → List Action → ℕ
place_among a [] = 0
place_among a (b ∷ bs) = let rest = place_among a bs in if same_action b a then 1 else later rest

unfoldable pub place_of : Option Action → List Action → ℕ
unfolding place_among
place_of none bs = 0
place_of (some a) bs = place_among a bs

-- The index that a key goes to, from a place among `n` buttons. Of one button, without the focus,
-- the source finds the remainder of -1 by 1, which is 0.
unfoldable pub target : Key → ℕ → ℕ → ℕ
target home_key place n = 0
target end_key place n = n - 1
target arrow_down place n = (place + n) % n
target arrow_up place n = (place + n - 2) % n

-- The button with the focus, after a key and after several.
unfoldable pub press : Key → List Action → Option Action → Option Action
unfolding target place_of
press k bs active = get_elem? bs (target k (place_of active bs) (length bs))

unfoldable pub press_all : List Key → List Action → Option Action → Option Action
unfolding press
press_all [] bs active = active
press_all (k ∷ ks) bs active = press_all ks bs (press k bs active)

-- The button that has the focus when the menu opens, and what has it after the keys.
unfoldable pub focused : Value → Option Session → List Key → Option Action
unfolding buttons press_all
focused v session ks = let bs = buttons v session in press_all ks bs (get_elem? bs 0)
