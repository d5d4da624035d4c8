-- ===== src/Files/Downloads.antt =====
-- What the browser is given to save by a download.
use mysyncfiles.Prelude.{
  if-either, ℕ, zero, suc, ◌+◌, ◌-◌, min, ◌≡◌, ◌≤◌, sym, ◌∙◌, Bool, true, false, Option, none, some,
  List, [], ◌++◌, Text, codes, text_eq, text_eq_sound, length, length-append, length-take,
  length-drop, replicate, length-replicate, take, drop, ltb, ◌==◌, if◌then◌else◌, All, arith, ◌||◌,
  not,
}
use mysyncfiles.Exit.{Error, ok}
use mysyncfiles.Prog.{Prog, modify}
use mysyncfiles.Prog.Rules
use mysyncfiles.Files.Reader.{Bytes, set_at}
use mysyncfiles.Files.State.{Session, FileEntry, Page, is_aborted, is_some, lock}
use mysyncfiles.Files.Calls.{Call, Reply, sha, M, bytes_of, hash_of, value_of, is_refused}
use mysyncfiles.Files.Browse.{on_shown, set_toast}
use mysyncfiles.Files.Download.{
  receive, offer, finish_file, fetch_file, fail_download, end_transfer, start_transfer,
  download_with, download_in, download,
}

module _ (digest : Bytes → Text) where
  -- The digest that the browser computes is that of the bytes.
  abbrev pub Digests : Call → Reply → Type 0
  Digests (sha b) r = (h : Text) → hash_of r ≡ ok h → h ≡ digest b
  Digests _ r = Unit

  pub record IsWhole (e : FileEntry) (b : Bytes) : Type 0 where
    pub same_size : length b ≡ e.size
    pub same_digest : digest b ≡ e.sha256

  abbrev pub OffersWhole : Page → Type 0
  OffersWhole s = All (λ x. IsWhole x.0 x.1) s.offered

  abbrev pub History : Type 0
  History = List (Call × Reply)

  abbrev pub Leaves : {A : Type 0} → (A → Page → Type 0) → History → Prog Call Reply Page A → Type 0
  Leaves P = Rules.Leaves Digests OffersWhole (λ _ _. Unit) P

  abbrev pub Kept : {A : Type 0} → History → Prog Call Reply Page A → Type 0
  Kept = Rules.Kept Digests OffersWhole (λ _ _. Unit)

  pub length-set_at :
      (b part : Bytes) (offset n : ℕ)
      → length b ≡ n
      → offset + length part ≤ n
      → length (set_at b offset part) ≡ n
  unfolding set_at
  length-set_at b part offset n e h = omega (
    arith,
    e,
    h,
    length-append (take offset b ++ part) (drop (offset + length part) b),
    length-append (take offset b) part,
    length-take offset b,
    length-drop (offset + length part) b,
  )

  if-Leaves :
      {A : Type 0} (b : Bool) (P : A → Page → Type 0) (h : History) (m n : M A) (s : Page)
      → Leaves P h (m s)
      → Leaves P h (n s)
      → Leaves P h ((if b then m else n) s)
  if-Leaves true P h m n s l k = l
  if-Leaves false P h m n s l k = k

  -- The loop leaves as many bytes as the entry's size.
  receive-Leaves :
      (fuel limit : ℕ) (entry : FileEntry) (b : Bytes) (offset : ℕ) (h : History) (s : Page)
      → OffersWhole s
      → length b ≡ entry.size
      → offset ≤ entry.size
      → Leaves (λ b _. length b ≡ entry.size) h (receive fuel limit entry b offset s)
  unfolding receive on_shown
  receive-Leaves zero limit entry b offset h s i e o = i
  receive-Leaves (suc fuel) limit entry b offset h s i e o = (
    (i, tt),
    λ r s1 _ i1. Rules.of_exit-Leaves _ _ _ _ _ s1 i1 (bytes_of r) _ λ part _.
        (Rules.guard-Leaves _ _ _ _ _ s1 i1 (length part == min limit (entry.size - offset)) _ _
          λ same.
            (let fits : offset + length part ≤ entry.size = ground (arith, same, o) in
              let size = length-set_at b part offset entry.size e fits in
              let s2 = on_shown (set_toast []) s1 in
              if-Leaves (ltb (offset + length part) entry.size) _ _ _ _ s2
                (receive-Leaves fuel limit entry (set_at b offset part) (offset + length part) _ s2
                  i1 size fits)
                (i1, size))),
  )

  offer-OffersWhole :
      (id current : ℕ) (entry : FileEntry) (b : Bytes) (s : Page)
      → IsWhole entry b
      → OffersWhole s
      → OffersWhole (offer id current entry b s)
  unfolding offer on_shown
  offer-OffersWhole id current entry b s w i =
      if-either OffersWhole
        (is_aborted id s || not (current == s.epoch) || not (is_some s.shown.session)) s _ (λ _. i)
        (λ _. (w, i))

  finish_file-Kept :
      (id current : ℕ) (entry : FileEntry) (b : Bytes) (h : History) (s : Page)
      → OffersWhole s
      → length b ≡ entry.size
      → Kept h (finish_file id current entry b s)
  unfolding finish_file
  finish_file-Kept id current entry b h s i size = (
    (i, tt),
    λ r s1 hashes i1. Rules.of_exit-Leaves _ _ _ _ _ s1 i1 (hash_of r) _ λ d found.
        (Rules.guard-Leaves _ _ _ _ _ s1 i1 (text_eq d entry.sha256) _ _ λ same.
          (let digested : digest b ≡ entry.sha256 =
              sym (hashes d found) ∙ text_eq_sound d entry.sha256 same in
            (
              (i1, tt),
              λ a s2 _ i2. Rules.of_exit-Leaves _ _ _ _ _ s2 i2 (value_of a) _ λ _ _.
                  ((
                    offer-OffersWhole id current entry b s2
                        (record { same_size = size; same_digest = digested }) i2,
                    tt,
                  )),
            ))),
  )

  fetch_file-Kept :
      (id current limit : ℕ) (entry : FileEntry) (h : History) (s : Page)
      → OffersWhole s
      → Kept h (fetch_file id current limit entry s)
  unfolding fetch_file
  fetch_file-Kept id current limit entry h s i =
      Rules.bind-Leaves _ _ _ _ (λ b _. length b ≡ entry.size) (finish_file id current entry)
        (receive (entry.size + 1) limit entry (replicate entry.size 0) 0 s) h
        (receive-Leaves (entry.size + 1) limit entry (replicate entry.size 0) 0 h s i
          (length-replicate entry.size 0) (omega arith))
        (λ h1 b s1 i1 size. finish_file-Kept id current entry b h1 s1 i1 size)

  fail_download-OffersWhole :
      (current : ℕ) (e : Error) (s : Page) → OffersWhole s → OffersWhole (fail_download current e s)
  unfolding fail_download
  fail_download-OffersWhole current e s i =
      if-either OffersWhole (not (current == s.epoch) || not (is_some s.shown.session)) s _ (λ _. i)
        (λ _.
          if-either OffersWhole (is_refused e) (lock (codes "expired") [] s)
            (on_shown (set_toast []) s) (λ _. unfold lock in i) (λ _. unfold on_shown in i))

  end_transfer-OffersWhole : (id : ℕ) (s : Page) → OffersWhole s → OffersWhole (end_transfer id s)
  unfolding end_transfer
  end_transfer-OffersWhole id s i =
      elim s.transfer
        as (λ t.
          OffersWhole
            (elim t [ none ↦ s | some j ↦ if j == id then record s { transfer = none } else s ])) [
              | none ↦ i
              | some j ↦
                  elim (j == id)
                    as (λ c. OffersWhole (if c then record s { transfer = none } else s)) [
                      | true ↦ i
                      | false ↦ i
                    ]
            ]

  download_with-Kept :
      (session : Session) (entry : FileEntry) (h : History) (s : Page)
      → OffersWhole s
      → Kept h (download_with session entry s)
  unfolding download_with start_transfer on_shown
  download_with-Kept session entry h s i =
      Rules.finally-Kept _ _ _ (end_transfer s.fresh) _ h
        (Rules.catch-Kept _ _ _ (λ e. modify (fail_download s.epoch e))
          (fetch_file s.fresh s.epoch session.chunk_bytes entry (start_transfer entry s)) h
          (fetch_file-Kept s.fresh s.epoch session.chunk_bytes entry h (start_transfer entry s) i)
          (λ h1 e s1 i1. (fail_download-OffersWhole s.epoch e s1 i1, tt)))
        (end_transfer-OffersWhole s.fresh)

  download_in-Kept :
      (o : Option Session) (entry : FileEntry) (h : History) (s : Page)
      → OffersWhole s
      → Kept h (download_in o entry s)
  unfolding download_in on_shown
  download_in-Kept none entry h s i = (i, tt)
  download_in-Kept (some session) entry h s i =
      Rules.if-Kept _ _ _
        (is_some s.upload || is_some s.transfer || ltb session.download_limit entry.size) _ _ h
        (λ _. (i, tt)) (λ _. download_with-Kept session entry h s i)

  -- A download never has the browser save a file that is not of the size and of the digest of its
  -- entry, whatever the server answers and whatever the page does while it waits.
  pub download-Kept :
      (entry : FileEntry) (h : History) (s : Page) → OffersWhole s → Kept h (download entry s)
  unfolding download
  download-Kept entry h s i = download_in-Kept s.shown.session entry h s i
