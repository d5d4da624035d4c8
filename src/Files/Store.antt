-- ===== src/Files/Store.antt =====
-- What the calls of an upload (`sendFiles`, web/atlas.js) make of a store that follows their protocol: an
-- upload is created, its parts are appended, and a commit stores the file if it is whole.
use mysyncfiles.Prelude.{
  ℕ, ◌≡◌, refl, ◌∙◌, ap, ◌&&◌, Option, none, some, List, [], ◌∷◌, ◌++◌, Text, text_eq, length, ◌==◌,
  if◌then◌else◌,
}
use mysyncfiles.Exit.{Error, Exit, ok}
use mysyncfiles.Prog.{Prog, bind, catch_prog, finally_prog, end_as}
use mysyncfiles.Prog.Plays.{Plays, bind-Plays, catch-Plays, finally-Plays}
use mysyncfiles.Files.Reader.{Bytes}
use mysyncfiles.Files.State.{Page}
use mysyncfiles.Files.Calls.{Call, Reply, create, put, commit, delete}

pub record Pending : Type 0 where
  pub path : Text
  pub size : ℕ
  pub sha256 : Text
  pub received : Bytes

-- The files are those that were committed, the latest first.
pub record Store : Type 0 where
  pub pending : Option Pending
  pub files : List (Text × Bytes)

module _ (digest : Bytes → Text) where
  append_part : ℕ → Bytes → Option Pending → Option Pending
  append_part offset part none = none
  append_part offset part (some p) =
      if length p.received == offset
      then some (record p { received = p.received ++ part })
      else some p

  commit_pending : Option Pending → Store → Store
  commit_pending none st = st
  commit_pending (some p) st =
      if length p.received == p.size && text_eq (digest p.received) p.sha256
      then record { pending = none; files = (p.path, p.received) ∷ st.files }
      else st

  unfoldable pub accept : Call → Store → Store
  unfolding append_part commit_pending
  accept (create path size sha256) st = record st {
    pending = some (record { path = path; size = size; sha256 = sha256; received = [] });
  }
  accept (put id offset part) st = record st { pending = append_part offset part st.pending }
  accept (commit id) st = commit_pending st.pending st
  accept (delete id) st = record st { pending = none }
  accept _ st = st

  unfoldable pub accept_all : List Call → Store → Store
  accept_all [] st = st
  accept_all (c ∷ calls) st = accept_all calls (accept c st)

  accept_all-append :
      (cs ds : List Call) (st : Store) → accept_all (cs ++ ds) st ≡ accept_all ds (accept_all cs st)
  unfolding accept_all
  accept_all-append [] ds st = refl
  accept_all-append (c ∷ cs) ds st = accept_all-append cs ds (accept c st)

  module _ (env : Call → Reply) where
    -- The program alone ends as `x`, leaves the page `w`, and its calls make `st'` of the store `st`.
    abbrev pub Leads :
        {A : Type 0} → Store → Prog Call Reply Page A → Exit A → Page → Store → Type 0
    Leads st p x w st' = (calls : List Call) × Plays env p calls x w × (accept_all calls st ≡ st')

    pub bind-Leads :
        {A B : Type 0} (f : B → Page → Prog Call Reply Page A) (p : Prog Call Reply Page B) (b : B)
        (w : Page) (x : Exit A) (v : Page) (s t u : Store)
        → Leads s p (ok b) w t
        → Leads t (f b w) x v u
        → Leads s (bind f p) x v u
    bind-Leads f p b w x v s t u (cs, h, e) (ds, k, g) = (
      cs ++ ds,
      bind-Plays env f p cs ds b w x v h k,
      accept_all-append cs ds s ∙ ap (accept_all ds) e ∙ g,
    )

    pub catch-Leads :
        {A : Type 0} (f : Error → Page → Prog Call Reply Page A) (p : Prog Call Reply Page A)
        (a : A) (w : Page) (s t : Store)
        → Leads s p (ok a) w t
        → Leads s (catch_prog f p) (ok a) w t
    catch-Leads f p a w s t (cs, h, e) = (cs, catch-Plays env f p cs a w h, e)

    pub finally-Leads :
        {A : Type 0} (m : Page → Prog Call Reply Page (Unit {0})) (p : Prog Call Reply Page A)
        (x : Exit A) (w v : Page) (s t u : Store)
        → Leads s p x w t
        → Leads t (bind (end_as x) (m w)) x v u
        → Leads s (finally_prog m p) x v u
    finally-Leads m p x w v s t u (cs, h, e) (ds, k, g) = (
      cs ++ ds,
      finally-Plays env m p cs ds x w v h k,
      accept_all-append cs ds s ∙ ap (accept_all ds) e ∙ g,
    )
