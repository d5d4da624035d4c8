-- ===== src/Files/Parts.antt =====
-- The parts of a file that is sent, and the invariant of the files page.
use mysyncfiles.Prelude.{
  ℕ, zero, suc, ◌+◌, min, Bool, true, false, none, some, Text, length, ltb, if-either,
}
use mysyncfiles.Exit.{Error, other}
use mysyncfiles.Prog.{pure, throw, guard}
use mysyncfiles.Prog.Stable
use mysyncfiles.Http.{failure}
use mysyncfiles.Files.State.{Page}
use mysyncfiles.Files.Calls.{M, value_of}
use mysyncfiles.Files.Upload.{
  Sending, LocalFile, can_go_on, check_live, path_in, started_id, part_check, commit_check,
  send_part, send_parts, set_active, send_content,
}
use mysyncfiles.Files.Fits.{Server, Inv, Rel_refl, Safe, same-After, bind-Safe, earlier-Safe}

module _ (Served : Server) where
  guard-Safe : (b : Bool) (e : Error) (s : Page) → Inv Served s → Safe Served s (guard b e s)
  guard-Safe true e s i = same-After Served s i
  guard-Safe false e s i = (i, Rel_refl s)

  pub check_live-Safe : (t : Sending) (s : Page) → Inv Served s → Safe Served s (check_live t s)
  unfolding check_live
  check_live-Safe t s i = guard-Safe (can_go_on t s) (failure "cancelled") s i

  send_part-Safe :
      (t : Sending) (file : LocalFile) (id : Text) (offset : ℕ) (others : M (Unit {0})) (s : Page)
      → ((w : Page) → Inv Served w → Safe Served w (others w))
      → Inv Served s
      → Safe Served s (send_part t file id offset others s)
  unfolding send_part
  send_part-Safe t file id offset others s rest i =
      bind-Safe Served _ s (check_live t s) (check_live-Safe t s i) λ _ u j _. (
        j,
        Rel_refl u,
        tt,
        λ r w _ k _. Stable.of_exit-Ensures _ _ _ _ _ w w k (Rel_refl w) (value_of r) _ λ v _.
            Stable.of_exit-Ensures _ _ _ _ _ w w k (Rel_refl w)
              (part_check id (min (offset + t.chunk_bytes) (length file.content)) v) _
              λ _ _. rest w k,
      )

  send_parts-Safe :
      (fuel : ℕ) (t : Sending) (file : LocalFile) (id : Text) (offset : ℕ) (s : Page)
      → Inv Served s
      → Safe Served s (send_parts fuel t file id offset s)
  unfolding send_parts
  send_parts-Safe zero t file id offset s i =
      if-either (λ m. Safe Served s (m s)) (ltb offset (length file.content)) (throw other)
        (pure tt) (λ _. (i, Rel_refl s)) (λ _. same-After Served s i)
  send_parts-Safe (suc fuel) t file id offset s i =
      let next = min (offset + t.chunk_bytes) (length file.content) in
      let others = send_parts fuel t file id next in
      if-either (λ m. Safe Served s (m s)) (ltb offset (length file.content))
        (send_part t file id offset others) (pure tt)
        (λ _. send_part-Safe t file id offset others s (send_parts-Safe fuel t file id next) i)
        (λ _. same-After Served s i)

  pub send_content-Safe :
      (t : Sending) (file : LocalFile) (sha256 : Text) (s : Page)
      → Inv Served s
      → Safe Served s (send_content t file sha256 s)
  unfolding send_content set_active
  send_content-Safe t file sha256 s i =
      bind-Safe Served _ s (check_live t s) (check_live-Safe t s i) λ _ s1 i1 _. (
        i1,
        Rel_refl s1,
        tt,
        λ r s2 _ i2 _. Stable.of_exit-Ensures _ _ _ _ _ s2 s2 i2 (Rel_refl s2) (value_of r) _ λ v _.
            Stable.of_exit-Ensures _ _ _ _ _ s2 s2 i2 (Rel_refl s2) (started_id v) _ λ id _.
              let s3 = set_active (some id) s2 in
              earlier-Safe Served s2 s3 _ (Rel_refl s2) (
                bind-Safe Served _ s3 (send_parts (length file.content) t file id 0 s3)
                  (send_parts-Safe (length file.content) t file id 0 s3 i2)
                  λ _ s4 i4 _.
                    bind-Safe Served _ s4 (check_live t s4) (check_live-Safe t s4 i4) λ _ s5 i5 _. (
                      i5,
                      Rel_refl s5,
                      tt,
                      λ a s6 _ i6 _.
                          Stable.of_exit-Ensures _ _ _ _ _ s6 s6 i6 (Rel_refl s6) (value_of a) _
                            λ w _.
                              Stable.of_exit-Ensures _ _ _ _ _ s6 s6 i6 (Rel_refl s6)
                                (commit_check (path_in t.destination file.name) sha256
                                  (length file.content) w)
                                _
                                λ _ _.
                                  earlier-Safe Served s6 (set_active none s6)
                                    (check_live t (set_active none s6)) (Rel_refl s6)
                                    (check_live-Safe t (set_active none s6) i6),
                    )),
      )
