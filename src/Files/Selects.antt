-- ===== src/Files/Selects.antt =====
-- The details of a selection and the actions of the menu, and the invariant of the files page.
use mysyncfiles.Prelude.{
  arith, true, if-either, ℕ, ◌≡◌, Bool, not, ◌&&◌, ◌||◌, [], Text, codes, ◌==◌,
}
use mysyncfiles.Value.{is_text, Value, end, obj}
use mysyncfiles.Exit.{ok, Error, code_is}
use mysyncfiles.Prog.{pure, modify}
use mysyncfiles.Prog.Stable
use mysyncfiles.Http.{field, optional}
use mysyncfiles.Files.State.{Page, is_some}
use mysyncfiles.Files.Calls.{value_of}
use mysyncfiles.Files.Selection.{is_folder, close_menu, close_details, show_details}
use mysyncfiles.Files.Browse.{
  on_shown, set_toast, path_of, info_check, directory_info, merge, is_selected, show_again, expire,
  ask_again, refresh_info,
}
use mysyncfiles.Files.Menu.{
  ask_info, show_info, fail_info, ask_details, menu_details, fail_copy, end_copy, ask_copy,
  menu_copy,
}
use mysyncfiles.Files.Fits.{
  Ensures, Server, Inv, Rel_refl, IsLive, Safe, After, same-After, live-After, lock-After,
  bind-Safe, catch-Safe,
}
use mysyncfiles.Files.Moves.{unchanged}
use mysyncfiles.Files.Loads.{eq_sound, and_left, and_right}
use mysyncfiles.Files.Picks.{clear_toast-After}

info_check-path :
    (path : Text) (v : Value) (u : Unit {0})
    → info_check path v ≡ ok u
    → is_text (optional "path" v) path ≡ true
unfolding info_check field optional
info_check-path path v u h = ground arith

module _ (Served : Server) where
  -- The properties that are accepted are those of the folder asked for, with its snapshot.
  pub directory_info-Ensures :
      (P : Value → Page → Type 0) (path : Text) (s : Page)
      → ((v : Value) (t : Page) → Served.snapshot path (optional "snapshot" v) → P v t)
      → Inv Served s
      → Ensures Served P s (directory_info path s)
  unfolding directory_info
  directory_info-Ensures P path s k i = (
    i,
    Rel_refl s,
    tt,
    λ r t served j l. Stable.of_exit-Ensures _ _ _ _ _ t t j (Rel_refl t) (value_of r) _ λ v valued.
        Stable.of_exit-Ensures _ _ _ _ _ t t j (Rel_refl t) (info_check path v) _ λ u accepted.
          (j, Rel_refl t, k v t (served v path valued (info_check-path path v u accepted))),
  )

  pub directory_info-Safe :
      (path : Text) (s : Page) → Inv Served s → Safe Served s (directory_info path s)
  directory_info-Safe path s i = directory_info-Ensures (λ _ _. Unit) path s (λ _ _ _. tt) i

  show_again-After :
      (current : ℕ) (connected : Bool) (v info : Value) (s : Page)
      → (current ≡ s.epoch → IsLive s)
      → Inv Served s
      → After Served s (show_again current connected v info s)
  unfolding show_again on_shown show_details close_menu close_details
  show_again-After current connected v info s live i =
      if-either (After Served s)
        (current == s.epoch && is_selected v s.shown && connected && s.shown.details_open) _ _
        (λ b.
          live-After Served (show_details (merge v info) s.shown) s
            (live (
              eq_sound current s.epoch (
                and_left (current == s.epoch) (is_selected v s.shown) (
                  and_left (current == s.epoch && is_selected v s.shown) connected (
                    and_left (current == s.epoch && is_selected v s.shown && connected)
                      s.shown.details_open b)))))
            (unchanged s.shown) i)
        (λ _. same-After Served s i)

  expire-After :
      (current : ℕ) (e : Error) (s : Page) → Inv Served s → After Served s (expire current e s)
  unfolding expire
  expire-After current e s i =
      if-either (After Served s) (current == s.epoch && code_is e "session_expired") _ _
        (λ _. lock-After Served (codes "expired") [] s i) (λ _. same-After Served s i)

  pub refresh_info-Safe :
      (connected : Bool) (v : Value) (s : Page)
      → IsLive s
      → Inv Served s
      → Safe Served s (refresh_info connected v s)
  unfolding refresh_info ask_again
  refresh_info-Safe connected v s live i =
      catch-Safe Served (λ e. modify (expire s.epoch e)) s (ask_again s.epoch connected v s)
        (bind-Safe Served (λ info. modify (show_again s.epoch connected v info)) s
          (directory_info (path_of v) s) (directory_info-Safe (path_of v) s i)
          (λ info t j l. show_again-After s.epoch connected v info t (λ e. l.1 e live) j))
        (λ e t j l. expire-After s.epoch e t j)

  show_info-After :
      (current : ℕ) (connected : Bool) (v info : Value) (s : Page)
      → Inv Served s
      → After Served s (show_info current connected v info s)
  unfolding show_info on_shown show_details close_menu close_details
  show_info-After current connected v info s i =
      let rest = not (is_folder v) || is_selected v s.shown in
      if-either (After Served s)
        (current == s.epoch && is_some s.shown.session && connected && rest) _ _
        (λ b.
          live-After Served (show_details (merge v info) s.shown) s
            (and_right (current == s.epoch) (is_some s.shown.session) (
              and_left (current == s.epoch && is_some s.shown.session) connected
                (and_left (current == s.epoch && is_some s.shown.session && connected) rest b)))
            (unchanged s.shown) i)
        (λ _. same-After Served s i)

  fail_info-After :
      (current : ℕ) (e : Error) (s : Page) → Inv Served s → After Served s (fail_info current e s)
  unfolding fail_info
  fail_info-After current e s i =
      if-either (After Served s) (current == s.epoch && is_some s.shown.session) _ s
        (λ _.
          if-either (After Served s) (code_is e "session_expired") (expire current e s)
            (on_shown (set_toast []) s) (λ _. expire-After current e s i)
            (λ _. clear_toast-After Served s i))
        (λ _. same-After Served s i)

  ask_info-Safe : (v : Value) (s : Page) → Inv Served s → Safe Served s (ask_info v s)
  unfolding ask_info
  ask_info-Safe v s i =
      if-either (Safe Served s) (is_folder v) (directory_info (path_of v) s) (pure (obj end) s)
        (λ _. directory_info-Safe (path_of v) s i) (λ _. (i, Rel_refl s, tt))

  pub menu_details-Safe :
      (connected : Bool) (v : Value) (s : Page)
      → Inv Served s
      → Safe Served s (menu_details connected v s)
  unfolding menu_details ask_details
  menu_details-Safe connected v s i =
      catch-Safe Served (λ e. modify (fail_info s.epoch e)) s (ask_details s.epoch connected v s)
        (bind-Safe Served (λ info. modify (show_info s.epoch connected v info)) s (ask_info v s)
          (ask_info-Safe v s i) (λ info t j l. show_info-After s.epoch connected v info t j))
        (λ e t j l. fail_info-After s.epoch e t j)

  end_copy-After : (current : ℕ) (s : Page) → Inv Served s → After Served s (end_copy current s)
  unfolding end_copy
  end_copy-After current s i =
      if-either (After Served s) (current == s.epoch && is_some s.shown.session) _ s
        (λ _. clear_toast-After Served s i) (λ _. same-After Served s i)

  fail_copy-After :
      (current : ℕ) (v : Value) (s : Page) → Inv Served s → After Served s (fail_copy current v s)
  unfolding fail_copy on_shown show_details close_menu close_details set_toast
  fail_copy-After current v s i =
      if-either (After Served s) (current == s.epoch && is_some s.shown.session) _ s
        (λ b.
          live-After Served (set_toast [] (show_details v s.shown)) s
            (and_right (current == s.epoch) _ b) (unchanged s.shown) i)
        (λ _. same-After Served s i)

  pub menu_copy-Safe : (v : Value) (s : Page) → Inv Served s → Safe Served s (menu_copy v s)
  unfolding menu_copy ask_copy
  menu_copy-Safe v s i =
      catch-Safe Served (λ e. modify (fail_copy s.epoch v)) s (ask_copy s.epoch v s)
        (
          i,
          Rel_refl s,
          tt,
          λ r t _ j l.
              Stable.of_exit-Ensures _ _ _ _ _ t t j (Rel_refl t) (value_of r) _
                λ _ _. end_copy-After s.epoch t j,
        )
        (λ e t j l. fail_copy-After s.epoch v t j)
