-- ===== src/Files/Redrawn.antt =====
-- What `load` draws of a listing (web/atlas.js): rows that are kept are those that it would draw, the
-- unit of a size fits it, and the mark of a search stands where it was found.
use mysyncfiles.Prelude.{
  ◌≡◌, refl, sym, subst, ap, ◌∙◌, true, false, ◌&&◌, Option, none, some, List, [], ◌∷◌, map, Text,
  text_eq_sound, if◌then◌else◌, if-either, arith,
}
use mysyncfiles.Value.{
  as_text, Value, Number, pos, negsuc, fraction, undefined, null, bool, num, str,
}
use mysyncfiles.Http.{optional}
use mysyncfiles.Files.State.{View, Query, Shown}
use mysyncfiles.Files.Listing.{query_of}
use mysyncfiles.Files.Selection.{
  same_number, same_value, same_key, same_entries, same_query, is_folder, show_entries,
}
use mysyncfiles.Files.Browse.{path_of, editable, is_pdf}
use mysyncfiles.Files.Drawn.{Row, row_of, draw_rows, kind_icon}

same_number_sound : (m n : Number) → same_number m n ≡ true → m ≡ n
unfolding same_number
same_number_sound (pos m) (pos n) h = ground arith
same_number_sound (negsuc m) (negsuc n) h = ground arith
same_number_sound (fraction t) (fraction u) h = ap fraction (text_eq_sound t u h)
same_number_sound (pos m) (negsuc n) h = cc
same_number_sound (pos m) (fraction n) h = cc
same_number_sound (negsuc m) (pos n) h = cc
same_number_sound (negsuc m) (fraction n) h = cc
same_number_sound (fraction m) (pos n) h = cc
same_number_sound (fraction m) (negsuc n) h = cc

-- What `===` holds of on the values of two answers is the same.
same_value_sound : (v w : Value) → same_value v w ≡ true → v ≡ w
unfolding same_value
same_value_sound undefined undefined h = refl
same_value_sound null null h = refl
same_value_sound (bool true) (bool true) h = refl
same_value_sound (bool false) (bool false) h = refl
same_value_sound (num m) (num n) h = ap num (same_number_sound m n h)
same_value_sound (str t) (str u) h = ap str (text_eq_sound t u h)
same_value_sound _ _ h = cc

path_of-same : (v w : Value) → optional "path" v ≡ optional "path" w → path_of v ≡ path_of w
unfolding path_of
path_of-same v w e = ap (λ x. elim (as_text x) [ none ↦ [] | some t ↦ t ]) e

same_entry :
    (lower : Text → Text) (sought : Text) (v w : Value)
    → same_key "kind" v w ≡ true
    → same_key "path" v w ≡ true
    → same_key "size" v w ≡ true
    → same_key "revision" v w ≡ true
    → same_key "sha256" v w ≡ true
    → same_key "updated_at" v w ≡ true
    → row_of lower sought v ≡ row_of lower sought w
unfolding row_of is_folder kind_icon editable is_pdf same_key
same_entry lower sought v w kind path size revision sha256 updated =
    let k = same_value_sound (optional "kind" v) (optional "kind" w) kind in
    let p = path_of-same v w (same_value_sound (optional "path" v) (optional "path" w) path) in
    let s = same_value_sound (optional "size" v) (optional "size" w) size in
    let r = same_value_sound (optional "revision" v) (optional "revision" w) revision in
    let h = same_value_sound (optional "sha256" v) (optional "sha256" w) sha256 in
    let u = same_value_sound (optional "updated_at" v) (optional "updated_at" w) updated in
    rw (k, p, s, r, h, u) refl

module _ (lower : Text → Text) where
  same_rows :
      (sought : Text) (vs ws : List Value)
      → same_entries vs ws ≡ true
      → map (row_of lower sought) ws ≡ map (row_of lower sought) vs
  unfolding same_entries
  same_rows sought [] [] h = refl
  same_rows sought (v ∷ vs) (w ∷ ws) h =
      let here =
        same_entry lower sought v w (ground arith) (ground arith) (ground arith) (ground arith)
          (ground arith) (ground arith) in
      let rest : same_entries vs ws ≡ true = ground arith in
      rw here (ap (λ rows. row_of lower sought w ∷ rows) (same_rows sought vs ws rest))
  same_rows sought _ _ h = cc

same_query_sound :
    (q : Query) (o : Option Query)
    → same_query q o ≡ true
    → (p : Query) × (o ≡ some p) × (q.search ≡ p.search)
unfolding same_query
same_query_sound q none h = cc
same_query_sound q (some p) h = (p, refl, text_eq_sound q.search p.search (ground arith))

-- A listing that is shown is that of the view that is shown.
abbrev pub IsOwn : Option Query → View → Type 0
IsOwn none view = Unit
IsOwn (some q) view = q ≡ query_of view

module _ (lower : Text → Text) where
  kept_rows :
      (view : View) (entries : List Value) (sh : Shown)
      → IsOwn sh.displayed_query sh.view
      → (same_query (query_of view) sh.displayed_query && same_entries entries sh.displayed_entries)
        ≡ true
      → map (row_of lower sh.view.search) sh.displayed_entries
        ≡ map (row_of lower view.search) entries
  unfolding query_of
  kept_rows view entries sh own same =
      let (q, known, searched) =
        same_query_sound (query_of view) sh.displayed_query (ground arith) in
      let shown : q ≡ query_of sh.view = subst (λ o. IsOwn o sh.view) known own in
      let asked : sh.view.search ≡ view.search = sym (searched ∙ ap (λ x. x.search) shown) in
      rw asked (same_rows lower view.search entries sh.displayed_entries (ground arith))

  -- The rows that are there are those of the listing that is shown.
  pub record AreDrawn (sh : Shown) (rows : List (Row lower)) : Type 0 where
    pub own : IsOwn sh.displayed_query sh.view
    pub drawn : rows ≡ map (row_of lower sh.view.search) sh.displayed_entries

  -- If the rows that are there are those of the listing that is shown, then `load` leaves, after an answer,
  -- the rows that it would draw of the answer, also where it keeps those that are there; and they are again
  -- those of the listing that is then shown.
  pub draw_rows-AreDrawn :
      (view : View) (entries : List Value) (next : Option Text) (sh : Shown)
      (rows : List (Row lower))
      → AreDrawn sh rows
      → (draw_rows lower view entries sh rows ≡ map (row_of lower view.search) entries)
        × AreDrawn (show_entries view (entries, next) sh) (draw_rows lower view entries sh rows)
  unfolding draw_rows show_entries
  draw_rows-AreDrawn view entries next sh rows there =
      let same =
        same_query (query_of view) sh.displayed_query
        && same_entries entries sh.displayed_entries in
      let drawn : draw_rows lower view entries sh rows ≡ map (row_of lower view.search) entries =
        if-either (λ x. x ≡ map (row_of lower view.search) entries) same rows
          (map (row_of lower view.search) entries)
          (λ kept. there.drawn ∙ kept_rows view entries sh there.own kept) (λ other. refl) in
      let listed : map (row_of lower view.search) entries
          ≡ map (row_of lower view.search) (if same then sh.displayed_entries else entries) =
        if-either (λ x. map (row_of lower view.search) entries ≡ map (row_of lower view.search) x)
          same sh.displayed_entries entries
          (λ kept. sym (same_rows lower view.search entries sh.displayed_entries (ground arith)))
          (λ other. refl) in
      (drawn, record { own = refl; drawn = drawn ∙ listed })
