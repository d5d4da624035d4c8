-- ===== src/Files/Bodies.antt =====
-- What the bounded reading of a body gives.
use mysyncfiles.Prelude.{
  ℕ, ◌+◌, ◌≡◌, ◌≤◌, ◌↔◌, ◌≢◌, ◌&&◌, refl, sym, ap, ◌∙◌, Bool, true, false, Option, none, some, List,
  [], ◌∷◌, ◌++◌, append_assoc, append-nil, length, length-append, take, drop, replicate, ltb,
  if◌then◌else◌, arith, zero, suc, subst,
}
use native.Mathlib.Numerals.{unary_clauses}
use mysyncfiles.Exit.{Error, Exit, ok, err, >>=-eq-ok, ◌>>=◌}
use mysyncfiles.Value.{Value}
use mysyncfiles.Http.{is_ok}
use mysyncfiles.Files.Reader.{
  Bytes, Stream, finished, broken, chunk, read_chunks, set_at, copy_chunks, bytes, request,
  accept_data, rejected, raw_body, data_body,
}

-- The bytes of a body that comes to its end.
unfoldable pub contents : Stream → Option Bytes
contents finished = some []
contents (broken e) = none
contents (chunk value st) = elim (contents st) [ none ↦ none | some b ↦ some (value ++ b) ]

concat : List Bytes → Bytes
concat [] = []
concat (c ∷ cs) = c ++ concat cs

concat-snoc : (cs : List Bytes) (c : Bytes) → concat (cs ++ c ∷ []) ≡ concat cs ++ c
unfolding concat
concat-snoc [] c = append-nil c
concat-snoc (d ∷ cs) c = rw (concat-snoc cs c) (sym (append_assoc d (concat cs) c))

take-length : (a b : Bytes) → take (length a) (a ++ b) ≡ a
take-length [] b = refl
take-length (x ∷ a) b = ap (λ l. x ∷ l) (take-length a b)

drop-length : (a b : Bytes) → drop (length a) (a ++ b) ≡ b
drop-length [] b = refl
drop-length (x ∷ a) b = drop-length a b

drop-add : (m n : ℕ) (b : Bytes) → drop (m + n) b ≡ drop n (drop m b)
drop-add zero n b = let e : 0 + n ≡ n = omega arith in ap (λ k. drop k b) e
drop-add (suc m) zero [] = simp unary_clauses
drop-add (suc m) (suc n) [] = simp unary_clauses
drop-add (suc m) n (x ∷ b) =
    let e : suc m + n ≡ suc (m + n) = omega arith in ap (λ k. drop k (x ∷ b)) e ∙ drop-add m n b

drop-replicate : (m n : ℕ) (x : ℕ) → drop m (replicate (m + n) x) ≡ replicate n x
drop-replicate zero n x = let e : 0 + n ≡ n = omega arith in ap (λ k. replicate k x) e
drop-replicate (suc m) n x =
    let e : suc m + n ≡ suc (m + n) = omega arith in
    ap (λ k. drop (suc m) (replicate k x)) e ∙ drop-replicate m n x

set_at-front :
    (front c : Bytes) (n m : ℕ)
    → m ≡ length c + n
    → set_at (front ++ replicate m 0) (length front) c ≡ (front ++ c) ++ replicate n 0
unfolding set_at
set_at-front front c n m e = rw (
  e,
  take-length front (replicate (length c + n) 0),
  drop-add (length front) (length c) (front ++ replicate (length c + n) 0),
  drop-length front (replicate (length c + n) 0),
  drop-replicate (length c) n 0,
)

-- A buffer that is filled from its start, chunk by chunk, holds the chunks in their order.
copy_chunks-concat :
    (front : Bytes) (cs : List Bytes)
    → copy_chunks (front ++ replicate (length (concat cs)) 0) (length front) cs ≡ front ++ concat cs
unfolding copy_chunks concat
copy_chunks-concat front [] = refl
copy_chunks-concat front (c ∷ cs) =
    let zeros : Bytes = replicate (length (concat cs)) 0 in
    let filled : set_at (front ++ replicate (length (concat (c ∷ cs))) 0) (length front) c
        ≡ (front ++ c) ++ zeros =
      set_at-front front c (length (concat cs)) (length (concat (c ∷ cs)))
        (length-append c (concat cs)) in
    let ends : length front + length c ≡ length (front ++ c) =
      omega (arith, length-append front c) in
    rw (filled, ends, copy_chunks-concat (front ++ c) cs) (append_assoc front c (concat cs))

if-eq-ok :
    {A : Type 0} (b : Bool) (e : Error) {x : Exit A} {a : A}
    → (if b then err e else x) ≡ ok a
    → (b ≡ false) × (x ≡ ok a)
if-eq-ok true e h = cc
if-eq-ok false e h = (refl, h)

chunk-contents :
    (v : Bytes) (st : Stream) (b : Bytes)
    → contents (chunk v st) ≡ some b
    → (b' : Bytes) × (contents st ≡ some b') × (b ≡ v ++ b')
unfolding contents
chunk-contents v st b h =
    elim (contents st)
        as (λ c.
          elim c [ none ↦ none | some x ↦ some (v ++ x) ] ≡ some b
          → (b' : Bytes) × (c ≡ some b') × (b ≡ v ++ b')) [
            | none ↦ λ g. cc
            | some x ↦ λ g. (x, refl, cc)
          ]
      h

-- The loop of `bytes` that ends well has read a whole body, which is within the limit.
read_chunks-contents :
    (limit size n : ℕ) (kept cs : List Bytes) (st : Stream)
    → size ≤ limit
    → read_chunks limit size kept st ≡ ok (n, cs)
    → (b : Bytes) × (contents st ≡ some b)
      × (n ≡ size + length b)
      × (n ≤ limit)
      × (concat cs ≡ concat kept ++ b)
unfolding read_chunks contents
read_chunks-contents limit size n kept cs finished fits h =
    let same : n ≡ size = cc in
    let kept_all : cs ≡ kept = cc in
    ([], refl, omega arith, omega arith, rw kept_all (sym (append-nil (concat kept))))
read_chunks-contents limit size n kept cs (broken e) fits h = cc
read_chunks-contents limit size n kept cs (chunk v st) fits h =
    let (within, later) = if-eq-ok (ltb limit (size + length v)) _ h in
    let (b, whole, count, small, all) =
      read_chunks-contents limit (size + length v) n (kept ++ v ∷ []) cs st (ground arith) later in
    (
      v ++ b,
      rw whole,
      omega (arith, length-append v b),
      small,
      rw (all, concat-snoc kept v) (append_assoc (concat kept) v b),
    )

-- A whole body within the limit is read to its end.
contents-read_chunks :
    (limit size : ℕ) (kept : List Bytes) (st : Stream) (b : Bytes)
    → contents st ≡ some b
    → size + length b ≤ limit
    → (cs : List Bytes) × (read_chunks limit size kept st ≡ ok (size + length b, cs))
unfolding read_chunks contents
contents-read_chunks limit size kept finished b h fits =
    let none_left : [] ≡ b = cc in (kept, rw (sym none_left) (simp unary_clauses))
contents-read_chunks limit size kept (broken e) b h fits = cc
contents-read_chunks limit size kept (chunk v st) b h fits =
    let (b', whole, same) = chunk-contents v st b h in
    let sizes : size + length b ≡ size + length v + length b' =
      rw same (omega (arith, length-append v b')) in
    let (cs, runs) =
      contents-read_chunks limit (size + length v) (kept ++ v ∷ []) st b' whole
        (omega (arith, fits, sizes)) in
    let small : ltb limit (size + length v) ≡ false = ground (arith, fits, sizes) in
    (cs, rw (small, runs, sizes))

buffer :
    (n : ℕ) (cs : List Bytes) (b : Bytes)
    → n ≡ 0 + length b
    → concat cs ≡ concat [] ++ b
    → copy_chunks (replicate n 0) 0 cs ≡ b
unfolding concat
buffer n cs b e all =
    let size : n ≡ length (concat cs) = rw all (omega (arith, e)) in
    rw size (copy_chunks-concat [] cs ∙ all)

Exit_value : {A : Type 0} {a b : A} → ok a ≡ ok b → a ≡ b
Exit_value h = cc

-- `bytes` gives a body exactly if the reader gives it whole, and it is no longer than the limit.
pub bytes_lem :
    (limit : ℕ) (st : Stream) (b : Bytes)
    → (bytes limit (some st) ≡ ok b) ↔ (contents st ≡ some b) × (length b ≤ limit)
unfolding bytes
bytes_lem limit st b = (only, all)
  where
    only : bytes limit (some st) ≡ ok b → (contents st ≡ some b) × (length b ≤ limit)
    only h =
        let ((n, cs), reads, copied) = >>=-eq-ok (read_chunks limit 0 [] st) _ h in
        let (b', whole, count, small, all) =
          read_chunks-contents limit 0 n [] cs st (omega arith) reads in
        let same : b' ≡ b = (sym (buffer n cs b' count all) ∙ Exit_value copied) in
        (whole ∙ ap some same, rw (sym same) (omega (arith, count, small)))

    all : (contents st ≡ some b) × (length b ≤ limit) → bytes limit (some st) ≡ ok b
    all h =
        let (cs, reads) = contents-read_chunks limit 0 [] st b h.0 (omega (arith, h.1)) in
        let (b', whole, count, small, all) =
          read_chunks-contents limit 0 _ [] cs st (omega arith) reads in
        let same : b' ≡ b = cc in
        let all_b : concat cs ≡ concat [] ++ b = subst (λ x. concat cs ≡ concat [] ++ x) same all in
        rw reads (ap ok (buffer (0 + length b) cs b refl all_b))

-- What is known of a request that is not local, once its parsed body is given to its caller.
pub record IsAccepted (parse : Bytes → Exit Value) (limit status : ℕ) (body : Option Stream)
    (v : Value) : Type 0 where
  pub stream : Stream
  pub received : Bytes
  pub has_body : body ≡ some stream
  pub whole : contents stream ≡ some received
  pub small : length received ≤ limit
  pub parsed : parse received ≡ ok v
  pub well : is_ok status ≡ true
  pub settled : status ≢ 202

accept_data-data_body :
    (parse : Bytes → Exit Value) (status : ℕ) (v w : Value)
    → accept_data parse false status w ≡ ok (data_body v)
    → (is_ok status ≡ true) × (status ≢ 202) × (w ≡ v)
unfolding accept_data rejected
accept_data-data_body parse status v w h = ground arith

-- A request that is not local gives a parsed body only for a status that is ok and not 202, of a
-- response whose body was read whole, within the limit, and parsed to it.
pub request-IsAccepted :
    (parse : Bytes → Exit Value) (raw : Bool) (limit status : ℕ) (body : Option Stream) (v : Value)
    → request parse false raw limit status body ≡ ok (data_body v)
    → IsAccepted parse limit status body v
unfolding request
request-IsAccepted parse raw limit status none v h = unfold bytes in cc
request-IsAccepted parse raw limit status (some st) v h =
    let (b, read, h1) = >>=-eq-ok (bytes limit (some st)) _ h in
    let (whole, small) = (bytes_lem limit st b).0 read in
    let (w, parsed, accepted) = parsed_body (raw && is_ok status) b h1 in
    let (well, settled, same) = accept_data-data_body parse status v w accepted in
    record {
      stream = st;
      received = b;
      has_body = refl;
      whole = whole;
      small = small;
      parsed = parsed ∙ ap ok same;
      well = well;
      settled = settled;
    }
  where
    parsed_body :
        (whole : Bool) (b : Bytes)
        → (if whole then ok (raw_body b) else (do v ← parse b; accept_data parse false status v))
          ≡ ok (data_body v)
        → (w : Value) × (parse b ≡ ok w) × (accept_data parse false status w ≡ ok (data_body v))
    parsed_body true b e = cc
    parsed_body false b e = >>=-eq-ok (parse b) _ e
