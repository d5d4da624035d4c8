-- ===== src/Files/Moves.antt =====
-- Moving through the listing, and the invariant of the files page.
use mysyncfiles.Prelude.{
  if-either, ◌≡◌, ◌⊎◌, inl, inr, refl, ap, sym, subst, ◌∙◌, true, not, ◌&&◌, Option, none, some, [],
  Text, ltb, length, arith, Memᴰ,
}
use mysyncfiles.Value.{Value}
use mysyncfiles.Prog.{pure}
use mysyncfiles.Files.State.{View, Session, Shown, Page, is_some, blank}
use mysyncfiles.Files.Listing.{next_view, previous_view}
use mysyncfiles.Files.Selection.{close_menu}
use mysyncfiles.Files.Load.{load}
use mysyncfiles.Files.Browse.{
  on_shown, top_view, stop_search, clear_search, is_there, navigate, home, retry_of, refresh,
  to_next, next_page, previous_page, start_search, search_changed, search_fired,
}
use mysyncfiles.Files.Pages.{HasCursor, next_view-previous_view}
use mysyncfiles.Files.Fits.{
  Server, Inv, Rel_refl, IsLive, Alike, OptionHasCursor, Safe, After, earlier-Safe, same-After,
  blank-After, live-absurd,
}
use mysyncfiles.Files.Loads.{load-Safe}

pub unchanged : (sh : Shown) → Alike sh sh
unchanged sh = (refl, refl, refl, refl, refl, refl, refl)

session-cases : (o : Option Session) → (o ≡ none) ⊎ (is_some o ≡ true)
session-cases none = inl refl
session-cases (some a) = inr refl

module _ (Served : Server) where
  -- A page that shows something of the account has a session.
  pub shows-IsLive :
      {A : Type 0} (f : Shown → Option A) (s : Page) (a : A)
      → ((state message : Text) → f (blank state message) ≡ none)
      → f s.shown ≡ some a
      → Inv Served s
      → IsLive s
  shows-IsLive f s a b e i = elim (session-cases s.shown.session) [
    | inl h ↦
        let (state, message, same) = i.0.bare h in
        let bad : none ≡ some a = sym (b state message) ∙ sym (ap f same) ∙ e in
        let no : ⊥ = cc in elim no [ ]
    | inr live ↦ live
  ]

  pub listed-IsLive :
      (v : Value) (s : Page) → Memᴰ v s.shown.displayed_entries → Inv Served s → IsLive s
  unfolding blank
  listed-IsLive v s m i = elim (session-cases s.shown.session) [
    | inl h ↦
        let (state, message, same) = i.0.bare h in
        let bad : Memᴰ v [] = subst (Memᴰ v) (ap (λ sh. sh.displayed_entries) same) m in
        elim bad [ ]
    | inr live ↦ live
  ]

  stop_search-After : (s : Page) → Inv Served s → After Served s (on_shown stop_search s)
  unfolding on_shown stop_search blank
  stop_search-After s i = (
    (
      record {
        bare =
            λ h. let (state, message, same) = i.0.bare h in (state, message, ap stop_search same);
        paged = i.0.paged;
        retried = i.0.retried;
        searched = tt;
        answered = i.0.answered;
        snapped = i.0.snapped;
      },
      i.1,
    ),
    Rel_refl s,
    tt,
  )

  -- A view is loaded after the pending search is dropped.
  then_load-Safe :
      (view : View) (s : Page)
      → HasCursor view
      → Inv Served s
      → Safe Served s (load view (on_shown stop_search s))
  unfolding on_shown stop_search
  then_load-Safe view s has i =
      let t = on_shown stop_search s in
      earlier-Safe Served s t (load view t) (Rel_refl s)
        (load-Safe Served view t has (stop_search-After s i).0)

  pub navigate-Safe : (path : Text) (s : Page) → Inv Served s → Safe Served s (navigate path s)
  unfolding navigate on_shown stop_search clear_search top_view blank
  navigate-Safe path s i =
      let t = on_shown stop_search s in
      let u = on_shown clear_search t in
      let j = (stop_search-After s i).0 in
      if-either (Safe Served s) (is_there path s) (pure tt t) (load (top_view path []) u)
        (λ _. stop_search-After s i)
        (λ _. earlier-Safe Served s u (load (top_view path []) u) (Rel_refl s) (
          load-Safe Served (top_view path []) u (omega arith)
            (blank-After Served clear_search t (λ state message. (state, message, refl))
              (unchanged t.shown) j).0))

  pub home-Safe : (s : Page) → Inv Served s → Safe Served s (home s)
  unfolding home
  home-Safe s i =
      if-either (Safe Served s) (is_some s.shown.session) (navigate [] s) (pure tt s)
        (λ _. navigate-Safe [] s i) (λ _. same-After Served s i)

  retry_of-HasCursor :
      (o : Option View) (view : View)
      → OptionHasCursor o
      → HasCursor view
      → HasCursor (retry_of o view)
  unfolding retry_of
  retry_of-HasCursor none view h k = k
  retry_of-HasCursor (some v) view h k = h

  pub refresh-Safe : (s : Page) → Inv Served s → Safe Served s (refresh s)
  unfolding refresh
  refresh-Safe s i =
      let view = retry_of s.shown.retry_view s.shown.view in
      if-either (Safe Served s) (is_some s.listing) (pure tt s) (load view (on_shown stop_search s))
        (λ _. same-After Served s i)
        (λ _.
          then_load-Safe view s
            (retry_of-HasCursor s.shown.retry_view s.shown.view i.0.retried i.0.paged) i)

  to_next-Safe : (o : Option Text) (s : Page) → Inv Served s → Safe Served s (to_next o s)
  unfolding to_next
  to_next-Safe none s i = same-After Served s i
  to_next-Safe (some next) s i =
      if-either (Safe Served s) (ltb 0 (length next) && not (is_some s.listing))
        (load (next_view next s.shown.view) s) (pure tt s)
        (λ _.
          load-Safe Served (next_view next s.shown.view) s
            (next_view-previous_view next s.shown.view i.0.paged).3 i)
        (λ _. same-After Served s i)

  pub next_page-Safe : (s : Page) → Inv Served s → Safe Served s (next_page s)
  unfolding next_page
  next_page-Safe s i = to_next-Safe s.shown.next s i

  previous-HasCursor : (view : View) → HasCursor view → HasCursor (previous_view view)
  unfolding previous_view
  previous-HasCursor view h = omega (arith, h)

  pub previous_page-Safe : (s : Page) → Inv Served s → Safe Served s (previous_page s)
  unfolding previous_page
  previous_page-Safe s i =
      if-either (Safe Served s) (ltb 0 s.shown.view.page_index && not (is_some s.listing))
        (load (previous_view s.shown.view) s) (pure tt s)
        (λ _.
          load-Safe Served (previous_view s.shown.view) s
            (previous-HasCursor s.shown.view i.0.paged) i)
        (λ _. same-After Served s i)

  fired-Safe :
      (o : Option View) (s : Page)
      → OptionHasCursor o
      → Inv Served s
      → Safe Served s (elim o [ none ↦ pure tt s | some view ↦ load view (on_shown stop_search s) ])
  fired-Safe none s h i = same-After Served s i
  fired-Safe (some view) s h i = then_load-Safe view s h i

  pub search_fired-Safe : (s : Page) → Inv Served s → Safe Served s (search_fired s)
  unfolding search_fired
  search_fired-Safe s i = fired-Safe s.shown.search_timer s i.0.searched i

  pub search_changed-After :
      (t : Text) (s : Page) → Inv Served s → After Served s (search_changed t s)
  unfolding search_changed start_search on_shown top_view close_menu
  search_changed-After t s i =
      if-either (After Served s) (is_some s.shown.session) _ s
        (λ live. (
          (
            record {
              bare = λ h. live-absurd s live h;
              paged = i.0.paged;
              retried = omega arith;
              searched = omega arith;
              answered = i.0.answered;
              snapped = i.0.snapped;
            },
            i.1,
          ),
          Rel_refl s,
          tt,
        ))
        (λ _. same-After Served s i)
