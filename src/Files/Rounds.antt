-- ===== src/Files/Rounds.antt =====
-- The rounds of the loop that sends a file.
use mysyncfiles.Prelude.{
  ℕ, zero, suc, ◌+◌, ◌-◌, ◌≡◌, ◌≤◌, ap, ◌∙◌, false, Bool-cases, inl, inr, length, ltb, min,
  if◌then◌else◌, Text, arith,
}
use mysyncfiles.Prog.{pure}
use mysyncfiles.Files.Upload.{LocalFile, Sending, send_part, send_parts}

module _ (t : Sending) (file : LocalFile) (id : Text) (some_bytes : 1 ≤ t.chunk_bytes) where
  another_round :
      (fuel offset : ℕ)
      → length file.content - offset ≤ fuel
      → send_parts fuel t file id offset ≡ send_parts (suc fuel) t file id offset
  unfolding send_parts
  another_round zero offset h =
      let over : ltb offset (length file.content) ≡ false = ground (arith, h) in rw over
  another_round (suc fuel) offset h = elim (Bool-cases (ltb offset (length file.content))) [
    | inl more ↦
        let left : length file.content - min (offset + t.chunk_bytes) (length file.content) ≤ fuel =
          ground (arith, more, h, some_bytes) in
        ap (λ m. if ltb offset (length file.content) then send_part t file id offset m else pure tt)
          (another_round fuel (min (offset + t.chunk_bytes) (length file.content)) left)
    | inr over ↦ rw over
  ]

  -- With parts of at least one byte, the loop with as many rounds as are left of the file is the loop
  -- with any greater number of rounds, so that it never ends for want of them.
  pub send_parts-add_rounds :
      (offset more : ℕ)
      → send_parts (length file.content - offset) t file id offset
        ≡ send_parts (length file.content - offset + more) t file id offset
  send_parts-add_rounds offset zero =
      let e : length file.content - offset ≡ length file.content - offset + 0 = omega arith in
      ap (λ n. send_parts n t file id offset) e
  send_parts-add_rounds offset (suc more) =
      let n = length file.content - offset in
      let e : suc (n + more) ≡ n + suc more = omega arith in
      send_parts-add_rounds offset more
      ∙ another_round (n + more) offset (omega arith)
      ∙ ap (λ k. send_parts k t file id offset) e
