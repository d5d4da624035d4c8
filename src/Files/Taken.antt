-- ===== src/Files/Taken.antt =====
-- The parts of a file that is sent to a server that takes them (`sendFiles`, web/atlas.js).
use mysyncfiles.Prelude.{
  ℕ, zero, suc, ◌+◌, ◌-◌, min, ◌≡◌, ◌≤◌, refl, sym, ap, subst, ◌∙◌, true, false, some, [], ◌∷◌,
  ◌++◌, Text, length, length-take, length-drop, take, drop, take_all, ltb, ◌==◌, if-either, arith,
}
use mysyncfiles.Value.{Value}
use mysyncfiles.Exit.{ok}
use mysyncfiles.Prog.Plays.{Plays}
use mysyncfiles.Files.Reader.{Bytes}
use mysyncfiles.Files.State.{Page}
use mysyncfiles.Files.Calls.{Call, Reply, create, put, commit, sha, value_of, hash_of, M}
use mysyncfiles.Files.Upload.{
  Sending, LocalFile, can_go_on, check_live, path_in, started_id, part_check, commit_check,
  send_part, send_parts,
}
use mysyncfiles.Files.Honest.{take-add}
use mysyncfiles.Files.Store.{Store, accept, accept_all, Leads}

module _ (env : Call → Reply) (digest : Bytes → Text) (t : Sending) where
  -- The server takes a file: it starts an upload, takes each part, and commits it.
  pub record Takes (file : LocalFile) : Type 0 where
    pub id : Text
    pub hashed : hash_of (env (sha file.content)) ≡ ok (digest file.content)
    pub start : Value
    pub starts :
        value_of (
          env
            (create (path_in t.destination file.name) (length file.content) (digest file.content)))
        ≡ ok start
    pub named : started_id start ≡ ok id
    pub part : ℕ → Bytes → Value
    pub takes : (offset : ℕ) (b : Bytes) → value_of (env (put id offset b)) ≡ ok (part offset b)
    pub agrees :
        (offset : ℕ) (b : Bytes) → part_check id (offset + length b) (part offset b) ≡ ok tt
    pub entry : Value
    pub commits : value_of (env (commit id)) ≡ ok entry
    pub confirms :
        commit_check
          (path_in t.destination file.name)
          (digest file.content)
          (length file.content)
          entry
        ≡ ok tt

  -- A store that has received a part of a file.
  abbrev pub receiving : Store → LocalFile → Bytes → Store
  receiving st file b = record st {
    pending = some (record {
      path = path_in t.destination file.name;
      size = length file.content;
      sha256 = digest file.content;
      received = b;
    });
  }

  module _ (file : LocalFile) (h : Takes file) (st : Store) (s : Page) (live : can_go_on t s ≡ true)
      (some_bytes : 1 ≤ t.chunk_bytes) where
    abbrev part_at : ℕ → Bytes
    part_at offset =
        take (min t.chunk_bytes (length file.content - offset)) (drop offset file.content)

    abbrev end_of : ℕ → ℕ
    end_of offset = min (offset + t.chunk_bytes) (length file.content)

    length-part_at :
        (offset : ℕ)
        → offset ≤ length file.content
        → offset + length (part_at offset) ≡ end_of offset
    length-part_at offset below = omega (
      arith,
      length-take (min t.chunk_bytes (length file.content - offset)) (drop offset file.content),
      length-drop offset file.content,
      below,
    )

    received_part :
        (id : Text) (offset : ℕ)
        → offset ≤ length file.content
        → accept digest
            (put id offset (part_at offset))
            (receiving st file (take offset file.content))
          ≡ receiving st file (take (end_of offset) file.content)
    unfolding accept
    received_part id offset below =
        let known : (length (take offset file.content) == offset) ≡ true =
          ground (arith, length-take offset file.content, below) in
        let whole : take offset file.content ++ part_at offset ≡ take (end_of offset) file.content =
          sym (take-add offset (min t.chunk_bytes (length file.content - offset)) file.content)
          ∙ ap (λ n. take n file.content) (omega (arith, below)) in
        rw known (ap (receiving st file) whole)

    send_part-Leads :
        (offset : ℕ) (others : M (Unit {0}))
        → offset ≤ length file.content
        → Leads digest env
            (receiving st file (take (end_of offset) file.content))
            (others s)
            (ok tt)
            s
            (receiving st file file.content)
        → Leads digest env
            (receiving st file (take offset file.content))
            (send_part t file h.id offset others s)
            (ok tt)
            s
            (receiving st file file.content)
    unfolding send_part check_live accept_all
    send_part-Leads offset others below (calls, plays, made) = (
      put h.id offset (part_at offset) ∷ calls,
      rw live (
        refl,
        rw (h.takes offset (part_at offset), Plays)
            (rw
              (
                subst (λ n. part_check h.id n (h.part offset (part_at offset)) ≡ ok tt)
                    (length-part_at offset below) (h.agrees offset (part_at offset)),
                Plays,
              )
              plays),
      ),
      ap (accept_all digest calls) (received_part h.id offset below) ∙ made,
    )

    pub send_parts-Leads :
        (fuel offset : ℕ)
        → length file.content - offset ≤ fuel
        → offset ≤ length file.content
        → Leads digest env
            (receiving st file (take offset file.content))
            (send_parts fuel t file h.id offset s)
            (ok tt)
            s
            (receiving st file file.content)
    unfolding send_parts accept_all
    send_parts-Leads zero offset enough below =
        let full : ltb offset (length file.content) ≡ false = ground (arith, enough, below) in
        let all : take offset file.content ≡ file.content =
          take_all offset file.content (omega (arith, enough)) in
        rw full ([], (refl, refl, refl), ap (receiving st file) all)
    send_parts-Leads (suc fuel) offset enough below =
        if-either {A = M (Unit {0})}
          (λ m.
            Leads digest env (receiving st file (take offset file.content)) (m s) (ok tt) s
              (receiving st file file.content))
          (ltb offset (length file.content)) _ _
          (λ more. send_part-Leads offset (send_parts fuel t file h.id (end_of offset)) below (
            send_parts-Leads fuel (end_of offset) (ground (arith, more, enough, below, some_bytes))
              (omega arith)))
          (λ over. (
            [],
            (refl, refl, refl),
            ap (receiving st file) (take_all offset file.content (ground (arith, over))),
          ))
