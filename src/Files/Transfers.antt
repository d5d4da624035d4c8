-- ===== src/Files/Transfers.antt =====
-- Downloads, and the invariant of the files page.
use mysyncfiles.Prelude.{
  ℕ, zero, suc, ◌+◌, ◌-◌, min, ◌≡◌, refl, Bool, true, false, not, ◌||◌, Option, none, some, [],
  codes, text_eq, length, replicate, ltb, ◌==◌, if◌then◌else◌, if-either,
}
use mysyncfiles.Exit.{Error}
use mysyncfiles.Prog.{pure, modify}
use mysyncfiles.Prog.Stable
use mysyncfiles.Http.{failure}
use mysyncfiles.Files.Reader.{Bytes, set_at}
use mysyncfiles.Files.State.{Session, FileEntry, Page, is_aborted, is_some, lock}
use mysyncfiles.Files.Calls.{bytes_of, hash_of, value_of, is_refused}
use mysyncfiles.Files.Browse.{on_shown, set_toast, basename}
use mysyncfiles.Files.Download.{
  receive, offer, finish_file, fetch_file, fail_download, end_transfer, start_transfer,
  download_with, download_in, download,
}
use mysyncfiles.Files.Fits.{
  Server, Inv, Rel_refl, Rel_fresh, IsLive, Apart, Safe, After, same-After, lock-After, bind-Safe,
  try-Safe, earlier-Safe,
}
use mysyncfiles.Files.Picks.{clear_toast-After, set_toast-After}

pub or_left_false : (b c : Bool) → (b || c) ≡ false → b ≡ false
or_left_false true c h = h
or_left_false false c h = refl

pub or_right_false : (b c : Bool) → (b || c) ≡ false → c ≡ false
or_right_false true c h = let bad : ⊥ = cc in elim bad [ ]
or_right_false false c h = h

pub eq-true_of_not : (b : Bool) → not b ≡ false → b ≡ true
eq-true_of_not true h = refl
eq-true_of_not false h = let bad : ⊥ = cc in elim bad [ ]

pub Apart-upload : (o p : Option ℕ) → is_some o ≡ false → Apart o p
Apart-upload none p h = tt
Apart-upload (some i) p h = let bad : ⊥ = cc in elim bad [ ]

pub Apart-transfer : (o p : Option ℕ) → is_some p ≡ false → Apart o p
Apart-transfer none p h = tt
Apart-transfer (some i) none h = tt
Apart-transfer (some i) (some j) h = let bad : ⊥ = cc in elim bad [ ]

module _ (Served : Server) where
  receive-Safe :
      (fuel limit : ℕ) (entry : FileEntry) (b : Bytes) (offset : ℕ) (s : Page)
      → Inv Served s
      → Safe Served s (receive fuel limit entry b offset s)
  unfolding receive on_shown
  receive-Safe zero limit entry b offset s i = (i, Rel_refl s)
  receive-Safe (suc fuel) limit entry b offset s i = (
    i,
    Rel_refl s,
    tt,
    λ r t _ j l. Stable.of_exit-Ensures _ _ _ _ _ t t j (Rel_refl t) (bytes_of r) _ λ part _.
        Stable.guard-Ensures _ _ _ _ _ t t j (Rel_refl t)
          (length part == min limit (entry.size - offset)) (failure "invalid_response") _
          λ _.
            let u = on_shown (set_toast []) t in
            let k = (clear_toast-After Served t j).0 in
            if-either (λ m. Safe Served t (m u)) (ltb (offset + length part) entry.size)
              (receive fuel limit entry (set_at b offset part) (offset + length part))
              (pure (set_at b offset part))
              (λ _.
                earlier-Safe Served t u
                  (receive fuel limit entry (set_at b offset part) (offset + length part) u)
                  (Rel_refl t)
                  (receive-Safe fuel limit entry (set_at b offset part) (offset + length part) u k))
              (λ _. (k, Rel_refl t, tt)),
  )

  offer-After :
      (id current : ℕ) (entry : FileEntry) (b : Bytes) (s : Page)
      → Inv Served s
      → After Served s (offer id current entry b s)
  unfolding offer
  offer-After id current entry b s i =
      let stale = is_aborted id s || not (current == s.epoch) in
      if-either (After Served s) (stale || not (is_some s.shown.session)) s _
        (λ _. same-After Served s i)
        (λ h.
          set_toast-After Served (basename entry.path) s
            (eq-true_of_not (is_some s.shown.session)
              (or_right_false stale (not (is_some s.shown.session)) h))
            i)

  fetch_file-Safe :
      (id current limit : ℕ) (entry : FileEntry) (s : Page)
      → Inv Served s
      → Safe Served s (fetch_file id current limit entry s)
  unfolding fetch_file finish_file
  fetch_file-Safe id current limit entry s i =
      bind-Safe Served (finish_file id current entry) s
        (receive (entry.size + 1) limit entry (replicate entry.size 0) 0 s)
        (receive-Safe (entry.size + 1) limit entry (replicate entry.size 0) 0 s i)
        (λ b t j _. (
          j,
          Rel_refl t,
          tt,
          λ r u _ k _. Stable.of_exit-Ensures _ _ _ _ _ u u k (Rel_refl u) (hash_of r) _ λ d _.
              Stable.guard-Ensures _ _ _ _ _ u u k (Rel_refl u) (text_eq d entry.sha256)
                (failure "integrity_failed") _
                λ _. (
                  k,
                  Rel_refl u,
                  tt,
                  λ a w _ n _.
                      Stable.of_exit-Ensures _ _ _ _ _ w w n (Rel_refl w) (value_of a) _
                        λ _ _. offer-After id current entry b w n,
                ),
        ))

  fail_download-After :
      (current : ℕ) (e : Error) (s : Page)
      → Inv Served s
      → After Served s (fail_download current e s)
  unfolding fail_download
  fail_download-After current e s i =
      if-either (After Served s) (not (current == s.epoch) || not (is_some s.shown.session)) s _
        (λ _. same-After Served s i)
        (λ _.
          if-either (After Served s) (is_refused e) (lock (codes "expired") [] s)
            (on_shown (set_toast []) s) (λ _. lock-After Served (codes "expired") [] s i)
            (λ _. clear_toast-After Served s i))

  transferred-After :
      (o : Option ℕ) (id : ℕ) (s : Page)
      → Inv Served s
      → After Served s
          (elim o [ none ↦ s | some i ↦ if i == id then record s { transfer = none } else s ])
  transferred-After none id s i = same-After Served s i
  transferred-After (some n) id s i =
      if-either (After Served s) (n == id) (record s { transfer = none }) s
        (λ _. ((i.0, Apart-transfer s.upload none refl), Rel_refl s, tt))
        (λ _. same-After Served s i)

  end_transfer-After : (id : ℕ) (s : Page) → Inv Served s → After Served s (end_transfer id s)
  unfolding end_transfer
  end_transfer-After id s i = transferred-After s.transfer id s i

  download_with-Safe :
      (session : Session) (entry : FileEntry) (s : Page)
      → IsLive s
      → is_some s.upload ≡ false
      → Inv Served s
      → Safe Served s (download_with session entry s)
  unfolding download_with start_transfer on_shown
  download_with-Safe session entry s live alone i =
      let t = start_transfer entry s in
      try-Safe Served (λ e. modify (fail_download s.epoch e)) (end_transfer s.fresh) s t
        (fetch_file s.fresh s.epoch session.chunk_bytes entry t) (Rel_fresh s)
        (fetch_file-Safe s.fresh s.epoch session.chunk_bytes entry t (
          (set_toast-After Served (basename entry.path) s live i).0.0,
          Apart-upload s.upload (some s.fresh) alone,
        ))
        (λ e w j _. fail_download-After s.epoch e w j) (λ w j. end_transfer-After s.fresh w j)

  download_in-Safe :
      (o : Option Session) (entry : FileEntry) (s : Page)
      → (is_some o ≡ true → IsLive s)
      → Inv Served s
      → Safe Served s (download_in o entry s)
  unfolding download_in
  download_in-Safe none entry s live i = same-After Served s i
  download_in-Safe (some session) entry s live i =
      if-either (Safe Served s)
        (is_some s.upload || is_some s.transfer || ltb session.download_limit entry.size)
        (pure tt (on_shown (set_toast []) s)) (download_with session entry s)
        (λ _. clear_toast-After Served s i)
        (λ h.
          download_with-Safe session entry s (live refl)
            (or_left_false (is_some s.upload) (is_some s.transfer) (
              or_left_false (is_some s.upload || is_some s.transfer)
                (ltb session.download_limit entry.size) h))
            i)

  pub download-Safe :
      (entry : FileEntry) (s : Page) → Inv Served s → Safe Served s (download entry s)
  unfolding download
  download-Safe entry s i = download_in-Safe s.shown.session entry s (λ h. h) i
