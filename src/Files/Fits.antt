-- ===== src/Files/Fits.antt =====
-- The invariant of the files page, what its handlers rely on from one call to the next, and what is
-- known of each of its calls.
use mysyncfiles.Prelude.{
  ℕ, ◌≡◌, ◌≤◌, ◌<◌, ◌+◌, refl, sym, subst, ap, ◌∙◌, ◌⊎◌, true, Option, none, some, List, [], Text,
  arith, get_elem?, if◌then◌else◌,
}
use mysyncfiles.Value.{Value, truthy, is_text}
use mysyncfiles.Exit.{Error, ok}
use mysyncfiles.Http.{optional}
use mysyncfiles.Prog.{Prog, bind, catch_prog, finally_prog, modify}
use mysyncfiles.Prog.Stable
use mysyncfiles.Indent.{is_empty}
use mysyncfiles.Files.State.{View, Query, FolderAction, Shown, Page, blank, is_some, lock}
use mysyncfiles.Files.Calls.{Call, Reply, get_entries, get_directory, change, value_of}
use mysyncfiles.Files.Listing.{query_of, listing_of, may_rename}
use mysyncfiles.Files.Selection.{same_entries}
use mysyncfiles.Files.Pages.{HasCursor}
use mysyncfiles.Files.Browse.{basename}

-- Nothing of the account is shown, nor can be shown again.
abbrev pub IsBlank : Shown → Type 0
IsBlank sh = (state : Text) × (message : Text) × (sh ≡ blank state message)

abbrev pub OptionHasCursor : Option View → Type 0
OptionHasCursor none = Unit
OptionHasCursor (some v) = HasCursor v

abbrev pub IsLive : Page → Type 0
IsLive s = is_some s.shown.session ≡ true

-- A page that is live is not without a session.
pub live-absurd : {A : Type 0} (s : Page) → IsLive s → s.shown.session ≡ none → A
live-absurd s l h = let bad : ⊥ = cc in elim bad [ ]

-- A change of what is shown that leaves the session, the listing and the folder operation as they are.
abbrev pub Alike : Shown → Shown → Type 0
Alike sh t =
    (t.session ≡ sh.session)
    × (t.view ≡ sh.view)
    × (t.retry_view ≡ sh.retry_view)
    × (t.search_timer ≡ sh.search_timer)
    × (t.displayed_query ≡ sh.displayed_query)
    × (t.displayed_entries ≡ sh.displayed_entries)
    × (t.folder_action ≡ sh.folder_action)

-- A page does not send and receive files at once.
abbrev pub Apart : Option ℕ → Option ℕ → Type 0
Apart (some i) (some j) = ⊥
Apart _ _ = Unit

-- A folder operation with a number below `n` is the one that was there before, of the same folder.
abbrev pub Follows : ℕ → Option FolderAction → Option FolderAction → Type 0
Follows n o none = Unit
Follows n o (some b) =
    b.id < n → (a : FolderAction) × (o ≡ some a) × (a.id ≡ b.id) × (a.path ≡ b.path)

pub Follows-refl : (n : ℕ) (o : Option FolderAction) → Follows n o o
Follows-refl n none = tt
Follows-refl n (some a) = λ _. (a, refl, refl, refl)

pub Follows-same : (n : ℕ) (o p : Option FolderAction) → p ≡ o → Follows n o p
Follows-same n o p e = subst (Follows n o) (sym e) (Follows-refl n o)

Follows-trans :
    (m n : ℕ) (o p q : Option FolderAction) → m ≤ n → Follows m o p → Follows n p q → Follows m o q
Follows-trans m n o p none l h k = tt
Follows-trans m n o p (some c) l h k = λ small.
    let (b, there, same, path) = k (omega (arith, small, l)) in
    let (a, first, alike, way) = subst (Follows m o) there h (omega (arith, small, same)) in
    (a, first, alike ∙ same, way ∙ path)

-- Epochs only grow, and a session that is there is there for the rest of its epoch; so do the numbers
-- of the requests, and a folder operation keeps its number and its folder.
abbrev pub Rel : Page → Page → Type 0
Rel s t =
    (s.epoch ≤ t.epoch)
    × (s.epoch ≡ t.epoch → IsLive s → IsLive t)
    × (s.fresh ≤ t.fresh)
    × Follows s.fresh s.shown.folder_action t.shown.folder_action

pub Rel_refl : (s : Page) → Rel s s
Rel_refl s = (omega arith, λ _ l. l, omega arith, Follows-refl s.fresh s.shown.folder_action)

-- The page after a request has taken its number.
pub Rel_fresh : (s : Page) → Rel s (record s { fresh = s.fresh + 1 })
Rel_fresh s = (omega arith, λ _ l. l, omega arith, Follows-refl s.fresh s.shown.folder_action)

pub Rel_trans : (s t u : Page) → Rel s t → Rel t u → Rel s u
Rel_trans s t u l k = (
  omega (arith, l.0, k.0),
  λ e h. k.1 (omega (arith, e, l.0, k.0)) (l.1 (omega (arith, e, l.0, k.0)) h),
  omega (arith, l.2, k.2),
  Follows-trans s.fresh t.fresh s.shown.folder_action t.shown.folder_action u.shown.folder_action
      l.2 l.3 k.3,
)

-- A change is sent with a snapshot of the folder, and renames it to a name that is new and valid.
abbrev pub IsNamed : Text → Option Text → Type 0
IsNamed path none = Unit
IsNamed path (some name) = may_rename (basename path) name ≡ true

-- What a listing is asked for: the view that is kept until it is shown, and the cursor of its page.
abbrev pub AsksFor : Query → Option View → Type 0
AsksFor q none = ⊥
AsksFor q (some v) =
    (q.after ≡ get_elem? v.cursors v.page_index)
    × ((cursor : Text) × (q.after ≡ some cursor))
    × (q.search ≡ v.search)
    × (q.directory ≡ (if is_empty v.search then v.directory else []))

-- What the server serves: the entries of a listing, for a query, and the snapshot of a folder.
pub record Server : Type 1 where
  pub listing : Query → List Value → Type 0
  pub snapshot : Text → Value → Type 0

-- The entries that are shown are those that the server gave for a query, or the same as them.
abbrev pub AreServed : (Query → List Value → Type 0) → Query → List Value → Type 0
AreServed listing q shown =
    (entries : List Value) × listing q entries
    × ((entries ≡ shown) ⊎ (same_entries entries shown ≡ true))

module _ (Served : Server) where
  -- What is known of a call when it is made.
  abbrev pub Sends : Call → Page → Type 0
  Sends (get_entries q) s = IsLive s × AsksFor q s.shown.retry_view
  Sends (change path snapshot name) s =
      IsLive s × (truthy snapshot ≡ true) × Served.snapshot path snapshot × IsNamed path name
  Sends _ s = Unit

  -- The server answers a query with a listing that it serves for it, and the properties of a folder that
  -- it names have its snapshot.
  abbrev pub Serves : Call → Reply → Type 0
  Serves (get_entries q) r =
      (v : Value) (entries : List Value) (next : Option Text)
      → value_of r ≡ ok v
      → listing_of v ≡ ok (entries, next)
      → Served.listing q entries
  Serves (get_directory path) r =
      (v : Value) (p : Text)
      → value_of r ≡ ok v
      → is_text (optional "path" v) p ≡ true
      → Served.snapshot p (optional "snapshot" v)
  Serves _ r = Unit

  -- A snapshot that the operation has is that of its folder.
  abbrev pub IsSnapped : Option FolderAction → Type 0
  IsSnapped none = Unit
  IsSnapped (some a) = truthy a.snapshot ≡ true → Served.snapshot a.path a.snapshot

  abbrev pub Answers : Option Query → View → List Value → Type 0
  Answers none view shown = Unit
  Answers (some q) view shown = (q ≡ query_of view) × AreServed Served.listing q shown

  pub record Fits (sh : Shown) : Type 0 where
    pub bare : sh.session ≡ none → IsBlank sh
    pub paged : HasCursor sh.view
    pub retried : OptionHasCursor sh.retry_view
    pub searched : OptionHasCursor sh.search_timer
    pub answered : Answers sh.displayed_query sh.view sh.displayed_entries
    pub snapped : IsSnapped sh.folder_action

  abbrev pub Inv : Page → Type 0
  Inv s = Fits s.shown × Apart s.upload s.transfer

  -- What is known of the state in which a handler ends, or a part of it.
  abbrev pub After : Page → Page → Type 0
  After s t = Inv t × Rel s t × Unit {0}

  abbrev pub Ensures : {A : Type 0} → (A → Page → Type 0) → Page → Prog Call Reply Page A → Type 0
  Ensures = Stable.Ensures Serves Inv Rel Sends

  abbrev pub Safe : {A : Type 0} → Page → Prog Call Reply Page A → Type 0
  Safe = Stable.Safe Serves Inv Rel Sends

  module _ {A : Type 0} where
    pub earlier-Safe : (t u : Page) (p : Prog Call Reply Page A) → Rel t u → Safe u p → Safe t p
    earlier-Safe = Stable.Ensures-earlier Serves Inv Rel Sends Rel_refl Rel_trans _

    pub bind-Safe :
        {B : Type 0} (f : B → Page → Prog Call Reply Page A) (u : Page) (q : Prog Call Reply Page B)
        → Safe u q
        → ((b : B) (w : Page) → Inv w → Rel u w → Safe w (f b w))
        → Safe u (bind f q)
    bind-Safe f u q s k =
        Stable.bind-Ensures Serves Inv Rel Sends Rel_refl Rel_trans (λ _ _. Unit) (λ _ _. Unit) f u
          q s (λ b w i l _. k b w i l)

    pub catch-Safe :
        (f : Error → Page → Prog Call Reply Page A) (u : Page) (q : Prog Call Reply Page A)
        → Safe u q
        → ((e : Error) (w : Page) → Inv w → Rel u w → Safe w (f e w))
        → Safe u (catch_prog f q)
    catch-Safe = Stable.catch-Ensures Serves Inv Rel Sends Rel_refl Rel_trans _

    -- A body with a `catch` and a `finally` block that only changes the state, after a change.
    pub try-Safe :
        (f : Error → Page → Prog Call Reply Page A) (m : Page → Page) (t u : Page)
        (q : Prog Call Reply Page A)
        → Rel t u
        → Safe u q
        → ((e : Error) (w : Page) → Inv w → Rel u w → Safe w (f e w))
        → ((w : Page) → Inv w → After w (m w))
        → Safe t (finally_prog (modify m) (catch_prog f q))
    try-Safe f m t u q l s k a = earlier-Safe t u (finally_prog (modify m) (catch_prog f q)) l (
        Stable.finally-Safe Serves Inv Rel Sends Rel_refl Rel_trans m u (catch_prog f q)
          (catch-Safe f u q s k) (λ w i. ((a w i).0, (a w i).1)))

  Alike-Fits : (sh t : Shown) → (t.session ≡ none → IsBlank t) → Alike sh t → Fits sh → Fits t
  Alike-Fits sh t b (s, v, r, p, q, e, f) i = record {
    bare = b;
    paged = subst HasCursor (sym v) i.paged;
    retried = subst OptionHasCursor (sym r) i.retried;
    searched = subst OptionHasCursor (sym p) i.searched;
    answered =
        subst (λ q. Answers q t.view t.displayed_entries) (sym q)
          (subst (λ v. Answers sh.displayed_query v t.displayed_entries) (sym v)
            (subst (λ e. Answers sh.displayed_query sh.view e) (sym e) i.answered));
    snapped = subst IsSnapped (sym f) i.snapped;
  }

  Alike-After :
      (t : Shown) (s : Page)
      → (t.session ≡ none → IsBlank t)
      → Alike s.shown t
      → Inv s
      → After s (record s { shown = t })
  Alike-After t s b l i = (
    (Alike-Fits s.shown t b l i.0, i.1),
    (
      omega arith,
      λ _ live. subst (λ o. is_some o ≡ true) (sym l.0) live,
      omega arith,
      Follows-same s.fresh s.shown.folder_action t.folder_action l.6,
    ),
    tt,
  )

  -- A change of what is shown that leaves the listing as it is: of a live page, or one that leaves a
  -- blank page blank.
  pub live-After :
      (t : Shown) (s : Page) → IsLive s → Alike s.shown t → Inv s → After s (record s { shown = t })
  live-After t s live l = Alike-After t s (λ h. live-absurd s live (sym l.0 ∙ h)) l

  pub blank-After :
      (f : Shown → Shown) (s : Page)
      → ((state message : Text) → IsBlank (f (blank state message)))
      → Alike s.shown (f s.shown)
      → Inv s
      → After s (record s { shown = f s.shown })
  blank-After f s b l i =
      Alike-After (f s.shown) s
        (λ h.
          let (state, message, same) = i.0.bare (sym l.0 ∙ h) in
          let (state', message', same') = b state message in (state', message', ap f same ∙ same'))
        l i

  -- A page that is locked.
  pub lock-After : (state message : Text) (s : Page) → Inv s → After s (lock state message s)
  unfolding lock blank
  lock-After state message s i = (
    (
      record {
        bare = λ _. (state, message, refl);
        paged = omega arith;
        retried = tt;
        searched = tt;
        answered = tt;
        snapped = tt;
      },
      i.1,
    ),
    (omega arith, λ e. let bad : ⊥ = omega (arith, e) in elim bad [ ], omega arith, tt),
    tt,
  )

  pub same-After : (s : Page) → Inv s → After s s
  same-After s i = (i, Rel_refl s, tt)
