-- ===== src/Files/Answered.antt =====
-- A load alone on the page, with a server that answers it.
use mysyncfiles.Prelude.{
  ℕ, ◌≡◌, refl, sym, ap, subst, ◌∙◌, true, false, not, ◌&&◌, Option, none, some, List, Text, ◌==◌,
  if◌then◌else◌, arith,
}
use mysyncfiles.Value.{Value}
use mysyncfiles.Exit.{Error, ok}
use mysyncfiles.Http.{reply, body_of}
use mysyncfiles.Prog.{modify, pure, try_catch}
use mysyncfiles.Prog.Serve.{serve, serve-catch, serve-finally}
use mysyncfiles.Files.State.{View, Page, is_aborted, is_some}
use mysyncfiles.Files.Calls.{Call, Reply, answer, get_entries, value_of}
use mysyncfiles.Files.Listing.{query_of, listing_of}
use mysyncfiles.Files.Selection.{same_query, same_entries, show_listing, show_entries}
use mysyncfiles.Files.Fits.{AreServed}
use mysyncfiles.Files.Loads.{served-if, and_right}
use mysyncfiles.Files.Load.{
  begin_load, is_current, accept_listing, ask_listing, fail_load, idle, end_load, load_with, load,
}

module _ (env : Call → Reply) (view : View) where
  serve-ask_listing :
      (id current : ℕ) (v : Value) (listing : List Value × Option Text) (s : Page)
      → env (get_entries (query_of view)) ≡ answer (reply 200 v)
      → listing_of v ≡ ok listing
      → is_current id current s ≡ true
      → serve env (ask_listing id current view s) ≡ (ok tt, show_listing view listing s)
  unfolding ask_listing accept_listing serve value_of body_of
  serve-ask_listing id current v listing s answered accepted now =
      rw (answered, serve) (rw now (rw (accepted, serve) refl))

  -- What a listing that is accepted leaves.
  pub record IsShown (listing : List Value × Option Text) (t : Page) : Type 0 where
    pub at : t.shown.view ≡ view
    pub asked : t.shown.displayed_query ≡ some (query_of view)
    pub next : t.shown.next ≡ listing.1
    pub shown :
        AreServed (λ _ entries. entries ≡ listing.0) (query_of view) t.shown.displayed_entries
    pub done : t.shown.retry_view ≡ none
    pub idle : t.listing ≡ none
    pub calm : t.shown.busy ≡ false

  -- A load of a page with a session, whose request is not aborted, ends well if the server's answer
  -- passes the test, and shows the listing, for any view and whatever was shown: the view and the cursor
  -- of the next page are those of the answer, and so are the entries, unless those that are shown are the
  -- same; nothing is left to retry and no request is under way.
  pub load-IsShown :
      (v : Value) (listing : List Value × Option Text) (s : Page)
      → is_some s.shown.session ≡ true
      → is_aborted s.fresh (begin_load view s) ≡ false
      → env (get_entries (query_of view)) ≡ answer (reply 200 v)
      → listing_of v ≡ ok listing
      → ((serve env (load view s)).0 ≡ ok tt) × IsShown listing (serve env (load view s)).1
  unfolding load load_with begin_load end_load show_listing show_entries is_current
  load-IsShown v listing s live clear answered accepted =
      let here : (s.epoch == s.epoch) ≡ true = ground arith in
      let own : (s.fresh == s.fresh) ≡ true = ground arith in
      let b = begin_load view s in
      let u = show_listing view listing b in
      let t = record u { listing = none; shown = idle u.shown } in
      let now : is_current s.fresh s.epoch b ≡ true =
        ap (λ c. (s.epoch == s.epoch) && not c) clear ∙ ap (λ c. c && true) here in
      let handler = λ (e : Error). modify (fail_load s.fresh s.epoch e) in
      let run : serve env (load view s) ≡ (ok tt, t) =
        ap (λ c. serve env (if c then load_with view s else pure tt s)) live
        ∙ serve-finally env (end_load s.fresh)
            (try_catch (ask_listing s.fresh s.epoch view) handler b) tt u
            (serve-catch env handler (ask_listing s.fresh s.epoch view b) tt u
              (serve-ask_listing s.fresh s.epoch v listing b answered accepted now))
        ∙ ap (λ c. (ok tt, if c then t else u)) own in
      let same_view = same_query (query_of view) s.shown.displayed_query in
      let same = same_view && same_entries listing.0 s.shown.displayed_entries in
      (
        ap (λ x. x.0) run,
        subst (λ x. IsShown listing x.1) (sym run)
            (record {
              at = refl;
              asked = refl;
              next = refl;
              shown =
                  served-if (λ _ entries. entries ≡ listing.0) (query_of view) listing.0
                    s.shown.displayed_entries same
                    (and_right same_view (same_entries listing.0 s.shown.displayed_entries)) refl;
              done = refl;
              idle = refl;
              calm = refl;
            }),
      )

  -- What a load that has failed leaves.
  pub record IsUnchanged (s t : Page) : Type 0 where
    pub session : t.shown.session ≡ s.shown.session
    pub query : t.shown.displayed_query ≡ s.shown.displayed_query
    pub entries : t.shown.displayed_entries ≡ s.shown.displayed_entries
    pub place : t.shown.view ≡ s.shown.view
    pub retry : t.shown.retry_view ≡ some view
    pub ended : t.listing ≡ none
    pub still : t.shown.busy ≡ false
