-- ===== src/Files/Loads.antt =====
-- Loading a listing, and the invariant of the files page.
use mysyncfiles.Prelude.{
  if-either, ℕ, ◌≡◌, inl, inr, refl, sym, subst, ◌∙◌, Bool, true, false, not, ◌&&◌, Option, none,
  some, List, Text, codes, ◌==◌, if◌then◌else◌, get_elem?, length, zero, suc, [], ◌∷◌, ◌<◌, arith,
}
use mysyncfiles.Value.{Value}
use mysyncfiles.Exit.{Error, ok}
use mysyncfiles.Prog.{modify, pure}
use mysyncfiles.Prog.Stable
use mysyncfiles.Files.State.{View, Query, Shown, Page, is_aborted, is_some, blank}
use mysyncfiles.Files.Calls.{value_of, is_refused}
use mysyncfiles.Files.Listing.{query_of, cursor_of, listing_of}
use mysyncfiles.Files.Selection.{
  is_folder, close_details, select_folder, show_details, same_query, same_entries, find_entry,
  reselect, keep_selection, show_entries, show_listing,
}
use mysyncfiles.Files.Load.{
  begin_load, is_current, accept_listing, ask_listing, fail_load, idle, end_load, load_with, load,
  load_current,
}
use mysyncfiles.Files.Pages.{HasCursor}
use mysyncfiles.Files.Fits.{
  Follows-same, Rel_fresh, IsSnapped, Server, AsksFor, Inv, Rel, Rel_refl, IsLive, OptionHasCursor,
  AreServed, Safe, try-Safe, lock-After, After, blank-After, same-After, live-absurd,
}

pub eq_sound : (m n : ℕ) → (m == n) ≡ true → m ≡ n
eq_sound m n h = ground arith

pub and_left : (a b : Bool) → (a && b) ≡ true → a ≡ true
and_left true b h = refl
and_left false b h = h

pub and_right : (a b : Bool) → (a && b) ≡ true → b ≡ true
and_right true b h = h
and_right false b h = let bad : ⊥ = cc in elim bad [ ]

get-some : (xs : List Text) (i : ℕ) → i < length xs → (x : Text) × (get_elem? xs i ≡ some x)
get-some [] i h = let bad : ⊥ = omega (arith, h) in elim bad [ ]
get-some (x ∷ xs) zero h = (x, refl)
get-some (x ∷ xs) (suc i) h = get-some xs i (omega (arith, h))

-- A change of what is shown that keeps the session, the pending search and the folder operation.
abbrev Keeps : Shown → Shown → Type 0
Keeps sh t =
    (t.session ≡ sh.session)
    × (t.search_timer ≡ sh.search_timer)
    × (t.folder_action ≡ sh.folder_action)

reselect-Keeps : (v : Value) (o : Option Value) (sh : Shown) → Keeps sh (reselect v o sh)
unfolding reselect close_details select_folder show_details
reselect-Keeps v none sh = (refl, refl, refl)
reselect-Keeps v (some w) sh =
    if-either (Keeps sh) (is_folder v && not sh.details_open) (select_folder w sh)
      (show_details w sh) (λ _. (refl, refl, refl)) (λ _. (refl, refl, refl))

sought-Keeps :
    (o : Option Value) (entries : List Value) (sh : Shown)
    → Keeps sh (elim o [ none ↦ sh | some v ↦ reselect v (find_entry v entries) sh ])
sought-Keeps none entries sh = (refl, refl, refl)
sought-Keeps (some v) entries sh = reselect-Keeps v (find_entry v entries) sh

keep_selection-Keeps :
    (same_view same : Bool) (entries : List Value) (sh : Shown)
    → Keeps sh (keep_selection same_view same entries sh)
unfolding keep_selection close_details
keep_selection-Keeps false same entries sh = (refl, refl, refl)
keep_selection-Keeps true true entries sh = (refl, refl, refl)
keep_selection-Keeps true false entries sh = sought-Keeps sh.selected entries sh

-- Whether an answer is for the page as it is.
pub is_current-epoch :
    (id current : ℕ) (s : Page) → is_current id current s ≡ true → current ≡ s.epoch
unfolding is_current
is_current-epoch id current s h =
    eq_sound current s.epoch (and_left (current == s.epoch) (not (is_aborted id s)) h)

-- A page that was live when a handler went on to wait is live as long as the epoch is the same.
pub current-IsLive :
    (s t : Page) (current : ℕ)
    → current ≡ s.epoch
    → IsLive s
    → Rel s t
    → current ≡ t.epoch
    → IsLive t
current-IsLive s t current e l r h = r.1 (sym e ∙ h) l

pub served-if :
    (listing : Query → List Value → Type 0) (q : Query) (entries shown : List Value) (same : Bool)
    → (same ≡ true → same_entries entries shown ≡ true)
    → listing q entries
    → AreServed listing q (if same then shown else entries)
served-if listing q entries shown true h s = (entries, s, inr (h refl))
served-if listing q entries shown false h s = (entries, s, inl refl)

module _ (Served : Server) where
  pub show_listing-After :
      (view : View) (entries : List Value) (next : Option Text) (s : Page)
      → HasCursor view
      → IsLive s
      → Served.listing (query_of view) entries
      → Inv Served s
      → After Served s (show_listing view (entries, next) s)
  unfolding show_listing show_entries
  show_listing-After view entries next s has live served i =
      let same_view = same_query (query_of view) s.shown.displayed_query in
      let same = same_view && same_entries entries s.shown.displayed_entries in
      let (session, timer, folder) = keep_selection-Keeps same_view same entries s.shown in
      (
        (
          record {
            bare = λ h. live-absurd s live (sym session ∙ h);
            paged = has;
            retried = tt;
            searched = subst OptionHasCursor (sym timer) i.0.searched;
            answered = (
              refl,
              served-if Served.listing (query_of view) entries s.shown.displayed_entries same
                  (and_right same_view (same_entries entries s.shown.displayed_entries)) served,
            );
            snapped = subst (IsSnapped Served) (sym folder) i.0.snapped;
          },
          i.1,
        ),
        (
          omega arith,
          λ _ l. subst (λ o. is_some o ≡ true) (sym session) l,
          omega arith,
          Follows-same s.fresh s.shown.folder_action _ folder,
        ),
        tt,
      )

  begin_load-Inv :
      (view : View) (s : Page)
      → HasCursor view
      → IsLive s
      → Inv Served s
      → Inv Served (begin_load view s)
  unfolding begin_load
  begin_load-Inv view s has live i = (
    record {
      bare = λ h. live-absurd s live h;
      paged = i.0.paged;
      retried = has;
      searched = i.0.searched;
      answered = i.0.answered;
      snapped = i.0.snapped;
    },
    i.1,
  )

  fail_load-After :
      (id current : ℕ) (e : Error) (s : Page)
      → Inv Served s
      → After Served s (fail_load id current e s)
  unfolding fail_load
  fail_load-After id current e s i =
      if-either (After Served s) (is_current id current s && is_refused e) _ _
        (λ _. lock-After Served (codes "expired") [] s i) (λ _. same-After Served s i)

  -- The end of a request leaves a blank page blank.
  idle-After :
      (s : Page) → Inv Served s → After Served s (record s { listing = none; shown = idle s.shown })
  unfolding blank idle
  idle-After s i =
      blank-After Served idle s (λ state message. (state, message, refl))
        (refl, refl, refl, refl, refl, refl, refl) i

  ended-After :
      (o : Option ℕ) (id : ℕ) (s : Page)
      → Inv Served s
      → After Served s (elim o [
        | none ↦ s
        | some i ↦ if i == id then record s { listing = none; shown = idle s.shown } else s
      ])
  ended-After none id s i = same-After Served s i
  ended-After (some n) id s i =
      if-either (After Served s) (n == id) _ _ (λ _. idle-After s i) (λ _. same-After Served s i)

  end_load-After : (id : ℕ) (s : Page) → Inv Served s → After Served s (end_load id s)
  unfolding end_load
  end_load-After id s i = ended-After s.listing id s i

  accept_listing-Safe :
      (view : View) (v : Value) (s : Page)
      → HasCursor view
      → IsLive s
      → ((entries : List Value) (next : Option Text)
          → listing_of v ≡ ok (entries, next)
          → Served.listing (query_of view) entries)
      → Inv Served s
      → Safe Served s (accept_listing view v s)
  unfolding accept_listing
  accept_listing-Safe view v s has live served i =
      Stable.of_exit-Ensures _ _ _ _ _ s s i (Rel_refl s) (listing_of v) _ λ listing accepted.
        show_listing-After view listing.0 listing.1 s has live (served listing.0 listing.1 accepted)
          i

  ask_listing-Safe :
      (id current : ℕ) (view : View) (s : Page)
      → current ≡ s.epoch
      → HasCursor view
      → IsLive s
      → AsksFor (query_of view) s.shown.retry_view
      → Inv Served s
      → Safe Served s (ask_listing id current view s)
  unfolding ask_listing
  ask_listing-Safe id current view s same has live asked i = (
    i,
    Rel_refl s,
    (live, asked),
    λ r t served j l. Stable.of_exit-Ensures _ _ _ _ _ t t j (Rel_refl t) (value_of r) _ λ v valued.
        Stable.when-Safe _ _ _ _ t t (is_current id current t) (accept_listing view v) j
          (Rel_refl t)
          λ now.
            accept_listing-Safe view v t has
              (current-IsLive s t current same live l (is_current-epoch id current t now))
              (λ entries next accepted. served v entries next valued accepted) j,
  )

  query_of-AsksFor : (view : View) → HasCursor view → AsksFor (query_of view) (some view)
  unfolding query_of cursor_of
  query_of-AsksFor view has = (refl, get-some view.cursors view.page_index has, refl, refl)

  load_with-Safe :
      (view : View) (s : Page)
      → HasCursor view
      → IsLive s
      → Inv Served s
      → Safe Served s (load_with view s)
  unfolding load_with begin_load
  load_with-Safe view s has live i =
      let t = begin_load view s in
      try-Safe Served (λ e. modify (fail_load s.fresh s.epoch e)) (end_load s.fresh) s t
        (ask_listing s.fresh s.epoch view t) (Rel_fresh s)
        (ask_listing-Safe s.fresh s.epoch view t refl has live (query_of-AsksFor view has)
          (begin_load-Inv view s has live i))
        (λ e w j _. fail_load-After s.fresh s.epoch e w j) (λ w j. end_load-After s.fresh w j)

  pub load-Safe :
      (view : View) (s : Page) → HasCursor view → Inv Served s → Safe Served s (load view s)
  unfolding load
  load-Safe view s has i =
      if-either (Safe Served s) (is_some s.shown.session) (load_with view s) (pure tt s)
        (λ live. load_with-Safe view s has live i) (λ _. (i, Rel_refl s, tt))

  pub load_current-Safe : (s : Page) → Inv Served s → Safe Served s (load_current s)
  unfolding load_current
  load_current-Safe s i = load-Safe s.shown.view s i.0.paged i
