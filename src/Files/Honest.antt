-- ===== src/Files/Honest.antt =====
-- A download from a server that has the file.
use mysyncfiles.Prelude.{
  ℕ, zero, suc, ◌+◌, ◌-◌, min, ◌≡◌, ◌≤◌, ◌<◌, refl, sym, ap, subst, ◌∙◌, true, false, ◌||◌, none,
  some, List, [], ◌∷◌, ◌++◌, Text, text_eq, text_eq_refl, length, length-append, length-take,
  length-drop, replicate, length-replicate, take, drop, take-length-append, take_all, ltb, ◌==◌,
  if◌then◌else◌, if-either, arith,
}
use mysyncfiles.Value.{Value, str}
use mysyncfiles.Exit.{ok}
use mysyncfiles.Http.{reply, body_of}
use mysyncfiles.Editor.Checks.{digest_of}
use mysyncfiles.Prog.{modify, pure, try_catch}
use mysyncfiles.Prog.Serve.{serve, serve-bind, serve-catch, serve-finally}
use mysyncfiles.Files.Reader.{Bytes, set_at}
use mysyncfiles.Files.State.{Session, FileEntry, Page, is_aborted, is_some}
use mysyncfiles.Files.Calls.{
  Call, Reply, raw, answer, get_chunk, sha, get_session, bytes_of, hash_of, value_of,
}
use mysyncfiles.Files.Browse.{on_shown, set_toast, basename}
use mysyncfiles.Files.Download.{
  receive, offer, finish_file, fetch_file, fail_download, end_transfer, start_transfer,
  download_with, download_in, download,
}
use mysyncfiles.Files.Downloads.{length-set_at}

take-nil : {A : Type 0} (n : ℕ) → take {A = A} n [] ≡ []
take-nil zero = refl
take-nil (suc n) = refl

pub take-add :
    {A : Type 0} (a k : ℕ) (xs : List A) → take (a + k) xs ≡ take a xs ++ take k (drop a xs)
take-add zero k xs = let e : 0 + k ≡ k = omega arith in ap (λ n. take n xs) e
take-add (suc a) k [] = let e : suc a + k ≡ suc (a + k) = omega arith in rw e (sym (take-nil k))
take-add (suc a) k (x ∷ xs) =
    let e : suc a + k ≡ suc (a + k) = omega arith in rw e (ap (λ ys. x ∷ ys) (take-add a k xs))

take-min : {A : Type 0} (k : ℕ) (xs : List A) → take (min k (length xs)) xs ≡ take k xs
take-min zero xs = let e : min 0 (length xs) ≡ 0 = omega arith in ap (λ n. take n xs) e
take-min (suc k) [] = take-nil (min (suc k) 0)
take-min (suc k) (x ∷ xs) =
    let e : min (suc k) (suc (length xs)) ≡ suc (min k (length xs)) = omega arith in
    rw e (ap (λ ys. x ∷ ys) (take-min k xs))

-- A part that is set where it belongs continues what is there already.
set_at-take :
    (b content part : Bytes) (offset limit : ℕ)
    → take offset b ≡ take offset content
    → part ≡ take limit (drop offset content)
    → offset ≤ length content
    → take (offset + length part) (set_at b offset part) ≡ take (offset + length part) content
unfolding set_at
set_at-take b content part offset limit known here fits =
    let k = length part in
    let size : k ≡ min limit (length (drop offset content)) =
      ap length here ∙ length-take limit (drop offset content) in
    let same : take k (drop offset content) ≡ part =
      ap (λ n. take n (drop offset content)) size
      ∙ take-min limit (drop offset content)
      ∙ sym here in
    let whole : take (offset + k) content ≡ take offset b ++ part =
      take-add offset k content
      ∙ ap (λ x. x ++ take k (drop offset content)) (sym known)
      ∙ ap (λ x. take offset b ++ x) same in
    let long : length (take offset b ++ part) ≡ offset + k = omega (
      arith,
      length-append (take offset b) part,
      ap length known,
      length-take offset content,
      fits,
    ) in
    ap (λ n. take n (take offset b ++ part ++ drop (offset + k) b)) (sym long)
    ∙ take-length-append (take offset b ++ part) (drop (offset + k) b)
    ∙ sym whole

-- The server has the file: it answers the calls of the download of `entry` with its parts and with the
-- session, and the browser computes a digest.
pub record HasFile (env : Call → Reply) (digest : Bytes → Text) (limit : ℕ) (content : Bytes)
    (entry : FileEntry) : Type 0 where
  pub parts :
      (offset : ℕ)
      → env (get_chunk entry.path entry.revision offset) ≡ raw (take limit (drop offset content))
  pub digests : (b : Bytes) → env (sha b) ≡ answer (reply 200 (str (digest b)))
  pub session : Value
  pub opens : env get_session ≡ answer (reply 200 session)
  pub same_size : entry.size ≡ length content
  pub same_digest : entry.sha256 ≡ digest content

module _ {env : Call → Reply} {digest : Bytes → Text} {limit : ℕ} {content : Bytes}
    {entry : FileEntry} (h : HasFile env digest limit content entry) (some_bytes : 1 ≤ limit) where
  serve-receive :
      (fuel : ℕ) (b : Bytes) (offset : ℕ) (s : Page)
      → length content - offset < fuel
      → length b ≡ length content
      → take offset b ≡ take offset content
      → offset ≤ length content
      → serve env (receive fuel limit entry b offset s) ≡ (ok content, on_shown (set_toast []) s)
  unfolding receive serve bytes_of on_shown set_toast
  serve-receive zero b offset s enough same known fits =
      let bad : ⊥ = omega (arith, enough) in elim bad [ ]
  serve-receive (suc fuel) b offset s enough same known fits =
      let part = take limit (drop offset content) in
      let u = on_shown (set_toast []) s in
      let size : length part ≡ min limit (length content - offset) =
        length-take limit (drop offset content) ∙ ap (min limit) (length-drop offset content) in
      let told : (length part == min limit (entry.size - offset)) ≡ true =
        ground (arith, size, h.same_size) in
      let below : offset + length part ≤ length content = omega (arith, size, fits) in
      let next = set_at b offset part in
      let long = length-set_at digest b part offset (length content) same below in
      let right = set_at-take b content part offset limit known refl fits in
      rw (h.parts offset, serve)
        (rw told (
          if-either (λ m. serve env (m u) ≡ (ok content, u)) (ltb (offset + length part) entry.size)
            (receive fuel limit entry next (offset + length part)) (pure next)
            (λ more.
              serve-receive fuel next (offset + length part) u
                (ground (arith, more, size, h.same_size, enough, some_bytes)) long right below)
            (λ over.
              let end : offset + length part ≡ length content =
                ground (arith, over, below, h.same_size) in
              let whole : next ≡ content =
                sym (take_all (offset + length part) next (omega (arith, long, end)))
                ∙ right
                ∙ take_all (offset + length part) content (omega (arith, end)) in
              ap (λ x. (ok x, u)) whole)))

  serve-finish_file :
      (id current : ℕ) (s : Page)
      → serve env (finish_file id current entry content s)
        ≡ (ok tt, offer id current entry content s)
  unfolding finish_file serve hash_of value_of digest_of body_of
  serve-finish_file id current s =
      let same : text_eq (digest content) entry.sha256 ≡ true =
        ap (text_eq (digest content)) h.same_digest ∙ text_eq_refl (digest content) in
      rw (h.digests content, serve) (rw same (rw (h.opens, serve) refl))

  serve-fetch_file :
      (id current : ℕ) (s : Page)
      → serve env (fetch_file id current limit entry s)
        ≡ (ok tt, offer id current entry content (on_shown (set_toast []) s))
  unfolding fetch_file
  serve-fetch_file id current s =
      let size = h.same_size in
      serve-bind env (finish_file id current entry)
        (receive (entry.size + 1) limit entry (replicate entry.size 0) 0 s) content
        (on_shown (set_toast []) s)
        (serve-receive (entry.size + 1) (replicate entry.size 0) 0 s (omega (arith, size))
          (length-replicate entry.size 0 ∙ size) refl (omega arith))
      ∙ serve-finish_file id current (on_shown (set_toast []) s)

  serve-download_with :
      (session : Session) (s : Page)
      → session.chunk_bytes ≡ limit
      → serve env (download_with session entry s) ≡ (
        ok tt,
        end_transfer s.fresh (
            offer s.fresh s.epoch entry content (on_shown (set_toast []) (start_transfer entry s))),
      )
  unfolding download_with
  serve-download_with session s same =
      let t = start_transfer entry s in
      let u = offer s.fresh s.epoch entry content (on_shown (set_toast []) t) in
      let p = fetch_file s.fresh s.epoch session.chunk_bytes entry t in
      serve-finally env (end_transfer s.fresh)
        (try_catch (fetch_file s.fresh s.epoch session.chunk_bytes entry)
          (λ e. modify (fail_download s.epoch e)) t)
        tt u
        (serve-catch env (λ e. modify (fail_download s.epoch e)) p tt u
          (ap (λ n. serve env (fetch_file s.fresh s.epoch n entry t)) same
            ∙ serve-fetch_file s.fresh s.epoch t))

  -- What a download leaves that nothing has interrupted.
  pub record IsSaved (s t : Page) : Type 0 where
    pub saved : t.offered ≡ (entry, content) ∷ s.offered
    pub free : t.transfer ≡ none
    pub named : t.shown.toast ≡ basename entry.path

  offered-IsSaved :
      (s : Page)
      → is_aborted s.fresh s ≡ false
      → is_some s.shown.session ≡ true
      → IsSaved s (
          end_transfer s.fresh (
            offer s.fresh s.epoch entry content (on_shown (set_toast []) (start_transfer entry s))))
  unfolding end_transfer offer on_shown set_toast start_transfer is_aborted
  offered-IsSaved s clear live =
      let here : (s.epoch == s.epoch) ≡ true = ground arith in
      let own : (s.fresh == s.fresh) ≡ true = ground arith in
      rw clear (rw here (rw live (rw own (record { saved = refl; free = refl; named = refl }))))

  -- A page whose session allows the file, with no transfer under way, that asks a server which has the
  -- file, with parts of at least one byte, ends the download, for any size of the file: the browser is
  -- given the file with its whole content, the page is free for another, and its message names the file.
  pub download-IsSaved :
      (session : Session) (s : Page)
      → s.shown.session ≡ some session
      → session.chunk_bytes ≡ limit
      → entry.size ≤ session.download_limit
      → s.upload ≡ none
      → s.transfer ≡ none
      → is_aborted s.fresh s ≡ false
      → ((serve env (download entry s)).0 ≡ ok tt) × IsSaved s (serve env (download entry s)).1
  unfolding download download_in
  download-IsSaved session s live same allowed no_upload no_transfer clear =
      let t =
        end_transfer s.fresh (
          offer s.fresh s.epoch entry content (on_shown (set_toast []) (start_transfer entry s))) in
      let open_to : (is_some s.upload
            || is_some s.transfer
            || ltb session.download_limit entry.size)
          ≡ false =
        ground (arith, allowed, no_upload, no_transfer) in
      let run : serve env (download_in s.shown.session entry s) ≡ (ok tt, t) =
        ap (λ o. serve env (download_in o entry s)) live
        ∙ ap
            (λ b.
              serve env
                (if b then pure tt (on_shown (set_toast []) s) else download_with session entry s))
            open_to
        ∙ serve-download_with session s same in
      let is_live : is_some s.shown.session ≡ true = ap is_some live in
      (ap (λ x. x.0) run, subst (λ x. IsSaved s x.1) (sym run) (offered-IsSaved s clear is_live))
