-- ===== src/Files/Sent.antt =====
-- What the upload of a file sends, and when.
use mysyncfiles.Prelude.{
  ℕ, zero, suc, ◌+◌, ◌-◌, min, ◌≡◌, ◌≤◌, refl, sym, ap, ◌∙◌, Bool, true, false, not, ◌||◌, Option,
  none, some, List, [], ◌∷◌, ◌++◌, Text, length, take, drop, length-take, length-drop, ltb,
  if◌then◌else◌, arith, subst,
}
use mysyncfiles.Exit.{Error, Exit, ok, err, code_is}
use mysyncfiles.Prog.{Prog, done, bind, guard, catch_prog, when, throw, pure}
use mysyncfiles.Prog.Sat.{Sat, Sat-bind, Sat-catch, Sat-finally}
use mysyncfiles.Files.Reader.{Bytes}
use mysyncfiles.Files.State.{Page, is_aborted}
use mysyncfiles.Files.Calls.{Call, Reply, create, put, commit, delete, sha, M, value_of, hash_of}
use mysyncfiles.Files.Downloads.{Digests}
use mysyncfiles.Files.Upload.{
  LocalFile, Sending, is_live, can_go_on, check_live, path_in, started_id, part_check, commit_check,
  send_part, send_parts, set_active, send_content, send_body, file_failed, drop_upload, end_file,
  send_file,
}

-- The bytes of the parts that were sent since the last start of an upload, the latest call first.
unfoldable pub parts : List (Call × Reply) → Bytes
parts [] = []
parts ((create path size sha256, r) ∷ h) = []
parts ((put id offset b, r) ∷ h) = parts h ++ b
parts (x ∷ h) = parts h

-- A part that is sent continues what was sent before, from its offset on, in the file, while the
-- session lasts and nothing has cancelled the sending.
pub record IsNextPart (t : Sending) (file : LocalFile) (h : List (Call × Reply)) (offset : ℕ)
    (b : Bytes) (w : Page) : Type 0 where
  pub live : can_go_on t w ≡ true
  pub offset_known : length (parts h) ≡ offset
  pub continues : parts h ++ b ≡ take (offset + length b) file.content
  pub small : length b ≤ t.chunk_bytes

-- The commit is asked for when the parts sent are the whole file.
pub record IsComplete (t : Sending) (file : LocalFile) (h : List (Call × Reply)) (w : Page)
    : Type 0 where
  pub live : can_go_on t w ≡ true
  pub whole : parts h ≡ file.content

take-add : (m n : ℕ) (b : Bytes) → take (m + n) b ≡ take m b ++ take n (drop m b)
take-add zero n b = let e : 0 + n ≡ n = omega arith in ap (λ k. take k b) e
take-add (suc m) zero [] = let e : suc m + 0 ≡ suc m = omega arith in ap (λ k. take k []) e
take-add (suc m) (suc n) [] =
    let e : suc m + suc n ≡ suc (m + suc n) = omega arith in ap (λ k. take k []) e
take-add (suc m) n (x ∷ b) =
    let e : suc m + n ≡ suc (m + n) = omega arith in
    ap (λ k. take k (x ∷ b)) e ∙ ap (λ l. x ∷ l) (take-add m n b)

take-all : (n : ℕ) (b : Bytes) → length b ≤ n → take n b ≡ b
take-all zero [] h = refl
take-all (suc n) [] h = refl
take-all zero (x ∷ b) h = let bad : ⊥ = omega (arith, h) in elim bad [ ]
take-all (suc n) (x ∷ b) h = ap (λ l. x ∷ l) (take-all n b (omega (arith, h)))

module _ (digest : Bytes → Text) (t : Sending) (file : LocalFile) where
  abbrev pub Guarded : List (Call × Reply) → Call → Page → Type 0
  Guarded h (create path size sha256) w =
      (can_go_on t w ≡ true)
      × (path ≡ path_in t.destination file.name)
      × (size ≡ length file.content)
      × (sha256 ≡ digest file.content)
  Guarded h (put id offset b) w = IsNextPart t file h offset b w
  Guarded h (commit id) w = IsComplete t file h w
  Guarded h _ w = Unit

  abbrev pub Safe :
      {A : Type 0}
      → (List (Call × Reply) → Exit A → Page → Type 0)
      → List (Call × Reply)
      → Prog Call Reply Page A
      → Type 0
  Safe Q h p = Sat (Digests digest) (λ _. Unit) Guarded Q h p

  abbrev pub Any : {A : Type 0} → List (Call × Reply) → Exit A → Page → Type 0
  Any h x w = Unit

  abbrev pub AllSent : List (Call × Reply) → Exit (Unit {0}) → Page → Type 0
  AllSent h (ok _) w = parts h ≡ file.content
  AllSent h (err e) w = Unit

  -- A check that is passed tells that the sending is live.
  check-Safe :
      {A : Type 0} (Q : List (Call × Reply) → Exit A → Page → Type 0) (b : Bool) (e : Error)
      (f : Unit {0} → M A) (h : List (Call × Reply)) (w : Page)
      → Q h (err e) w
      → (b ≡ true → Safe Q h (f tt w))
      → Safe Q h (bind f (guard b e w))
  check-Safe Q true e f h w q k = k refl
  check-Safe Q false e f h w q k = q

  exit-Safe :
      {A B : Type 0} (Q : List (Call × Reply) → Exit A → Page → Type 0) (x : Exit B) (f : B → M A)
      (h : List (Call × Reply)) (w : Page)
      → ((e : Error) → Q h (err e) w)
      → ((b : B) → x ≡ ok b → Safe Q h (f b w))
      → Safe Q h (bind f (done x w))
  exit-Safe Q (ok b) f h w q k = k b refl
  exit-Safe Q (err e) f h w q k = q e

  guard-Safe :
      (b : Bool) (e : Error) (h : List (Call × Reply)) (w : Page) → Safe Any h (guard b e w)
  guard-Safe true e h w = tt
  guard-Safe false e h w = tt

  next_part :
      (h : List (Call × Reply)) (offset : ℕ) (w : Page)
      → can_go_on t w ≡ true
      → offset ≤ length file.content
      → parts h ≡ take offset file.content
      → IsNextPart t file h offset
          (take (min t.chunk_bytes (length file.content - offset)) (drop offset file.content))
          w
  next_part h offset w live o e =
      let c = file.content in
      let n = min t.chunk_bytes (length c - offset) in
      let size : length (take n (drop offset c)) ≡ n =
        omega (arith, length-take n (drop offset c), length-drop offset c) in
      record {
        live = live;
        offset_known = rw e (omega (arith, length-take offset c, o));
        continues = rw (e, size) (sym (take-add offset n c));
        small = omega (arith, size);
      }

  if-Safe :
      {A : Type 0} (Q : List (Call × Reply) → Exit A → Page → Type 0) (b : Bool) (m n : M A)
      (h : List (Call × Reply)) (w : Page)
      → (b ≡ true → Safe Q h (m w))
      → (b ≡ false → Safe Q h (n w))
      → Safe Q h ((if b then m else n) w)
  if-Safe Q true m n h w k l = k refl
  if-Safe Q false m n h w k l = l refl

  no_more :
      (offset : ℕ) (h : List (Call × Reply))
      → offset ≤ length file.content
      → parts h ≡ take offset file.content
      → ltb offset (length file.content) ≡ false
      → parts h ≡ file.content
  no_more offset h o e done_all = e ∙ take-all offset file.content (ground (arith, done_all))

  -- The loop sends what is left of the file, and so all of it if it ends well.
  send_parts-Safe :
      (fuel : ℕ) (id : Text) (offset : ℕ) (h : List (Call × Reply)) (w : Page)
      → offset ≤ length file.content
      → parts h ≡ take offset file.content
      → Safe AllSent h (send_parts fuel t file id offset w)
  unfolding send_parts send_part parts
  send_parts-Safe zero id offset h w o e =
      if-Safe AllSent (ltb offset (length file.content)) _ _ h w (λ _. tt) (no_more offset h o e)
  send_parts-Safe (suc fuel) id offset h w o e =
      let n = min t.chunk_bytes (length file.content - offset) in
      let end = min (offset + t.chunk_bytes) (length file.content) in
      if-Safe AllSent (ltb offset (length file.content)) _ _ h w
        (λ _.
          unfold check_live in
          check-Safe AllSent (can_go_on t w) _ _ h w tt λ live.
            let next = next_part h offset w live o e in
            (
              next,
              λ r w1 _ _.
                  exit-Safe AllSent (value_of r) _ _ w1 (λ _. tt)
                    λ v _.
                      exit-Safe AllSent (part_check id end v) _ _ w1 (λ _. tt)
                        λ _ _.
                          (let size : offset + length (take n (drop offset file.content)) ≡ end =
                              omega (
                                arith,
                                o,
                                length-take n (drop offset file.content),
                                length-drop offset file.content,
                              ) in
                            send_parts-Safe fuel id end _ w1 (omega arith)
                              (next.continues ∙ ap (λ k. take k file.content) size)),
            ))
        (no_more offset h o e)

  send_content-Safe :
      (h : List (Call × Reply)) (w : Page)
      → Safe Any h (send_content t file (digest file.content) w)
  unfolding send_content parts
  send_content-Safe h w =
      unfold check_live in
      check-Safe Any (can_go_on t w) _ _ h w tt λ live. (
        (live, refl, refl, refl),
        λ r w1 _ _.
            exit-Safe Any (value_of r) _ _ w1 (λ _. tt)
              λ v _.
                exit-Safe Any (started_id v) _ _ w1 (λ _. tt)
                  λ id _.
                    Sat-bind _ _ _ AllSent Any _
                      (send_parts (length file.content) t file id 0 (set_active (some id) w1)) _
                      (send_parts-Safe (length file.content) id 0 _ _ (omega arith) refl)
                      (λ h2 _ w2 whole. check-Safe Any (can_go_on t w2) _ _ h2 w2 tt λ live2. (
                        record { live = live2; whole = whole },
                        λ r3 w3 _ _.
                            exit-Safe Any (value_of r3) _ _ w3 (λ _. tt)
                              λ v3 _.
                                exit-Safe Any (commit_check _ _ _ v3) _ _ w3 (λ _. tt)
                                  λ _ _. guard-Safe (can_go_on t (set_active none w3)) _ _ _,
                      ))
                      (λ h2 e2 w2 _. tt),
      )

  send_body-Safe : (h : List (Call × Reply)) (w : Page) → Safe Any h (send_body t file w)
  unfolding send_body
  send_body-Safe h w = (
    tt,
    λ r w1 hashes _.
        exit-Safe Any (hash_of r) _ _ w1 (λ _. tt)
          λ d found.
            subst (λ x. Safe Any ((sha file.content, r) ∷ h) (send_content t file x w1))
              (sym (hashes d found)) (send_content-Safe ((sha file.content, r) ∷ h) w1),
  )

  drop_upload-Safe :
      (o : Option Text) (h : List (Call × Reply)) (w : Page) → Safe Any h (drop_upload o w)
  unfolding drop_upload
  drop_upload-Safe none h w = tt
  drop_upload-Safe (some id) h w = (
    tt,
    λ r w1 _ _.
        elim (value_of r)
          as (λ x.
            Safe Any ((delete id, r) ∷ h)
              (catch_prog (λ e. pure tt) (bind (λ _. pure tt) (done x w1)))) [
                | ok v ↦ tt
                | err e ↦ tt
              ],
  )

  end_file-Safe : (h : List (Call × Reply)) (w : Page) → Safe Any h (end_file t w)
  unfolding end_file
  end_file-Safe h w =
      Sat-bind _ _ _ Any Any _ (when (is_live t w) (drop_upload w.active_id) w) h
        (elim (is_live t w) as (λ b. Safe Any h (when b (drop_upload w.active_id) w)) [
          | true ↦ drop_upload-Safe w.active_id h w
          | false ↦ tt
        ])
        (λ h1 _ w1 _. tt) (λ h1 e w1 _. tt)

  file_failed-Safe :
      (e : Error) (h : List (Call × Reply)) (w : Page) → Safe Any h (file_failed t e w)
  unfolding file_failed
  file_failed-Safe e h w =
      if-Safe {A = Unit {0}} Any
        (is_aborted t.id w
          || not (is_live t w)
          || code_is e "session_expired"
          || code_is e "authentication_refused"
          || code_is e "files_write_required")
        (throw e) (pure tt) h w (λ _. tt) (λ _. tt)

  -- Whatever the answers are and the page does meanwhile, a file's upload is started, with the file's
  -- size and digest, and committed only while the sending is live; each part continues in the file what
  -- was sent before, and the commit is asked for only when the parts sent are the whole file.
  pub send_file-Safe : (h : List (Call × Reply)) (w : Page) → Safe Any h (send_file t file w)
  unfolding send_file
  send_file-Safe h w =
      Sat-finally _ _ _ {A = Unit {0}} Any Any (end_file t)
        (catch_prog (file_failed t) (send_body t file w)) h
        (Sat-catch _ _ _ Any Any (file_failed t) (send_body t file w) h (send_body-Safe h w)
          (λ h1 a w1 _. tt) (λ h1 e w1 _. file_failed-Safe e h1 w1))
        (λ h1 x w1 _.
          Sat-bind _ _ _ Any Any _ (end_file t w1) h1 (end_file-Safe h1 w1)
            (λ h2 _ w2 _. elim x [ ok _ ↦ tt | err _ ↦ tt ]) (λ h2 e w2 _. tt))
