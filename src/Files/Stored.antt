-- ===== src/Files/Stored.antt =====
-- Sending files (`sendFiles`, web/atlas.js) to a server that takes them.
use mysyncfiles.Prelude.{
  ◌≡◌, ◌≤◌, refl, Bool, true, false, none, some, List, [], ◌∷◌, Text, text_eq_refl, length, ◌==◌,
  if◌then◌else◌, All, arith,
}
use mysyncfiles.Value.{Value}
use mysyncfiles.Exit.{ok}
use mysyncfiles.Prog.{catch_prog, end_as, when, bind, pure, modify, ◌>>◌}
use mysyncfiles.Prog.Plays.{Plays}
use mysyncfiles.Files.Reader.{Bytes}
use mysyncfiles.Files.State.{Page, is_aborted}
use mysyncfiles.Files.Calls.{Call, Reply, create, commit, sha, get_scope, write, value_of}
use mysyncfiles.Files.Upload.{
  Sending, LocalFile, can_go_on, check_live, path_in, may_send, send_parts, set_active,
  commit_content, is_live, send_content, send_body, file_failed, end_file, send_file, send_each,
  send_all,
}
use mysyncfiles.Files.Taken.{Takes, receiving, send_parts-Leads}
use mysyncfiles.Files.Store.{
  Store, accept, accept_all, Leads, bind-Leads, catch-Leads, finally-Leads,
}

-- The files of a store after those that may be sent, the last first.
abbrev pub files_after : Sending → List LocalFile → List (Text × Bytes) → List (Text × Bytes)
files_after t [] kept = kept
files_after t (file ∷ files) kept =
    files_after t files
      (if may_send t file then (path_in t.destination file.name, file.content) ∷ kept else kept)

abbrev pub holding : List (Text × Bytes) → Store
holding kept = record { pending = none; files = kept }

abbrev pub at_rest : Page → Page
at_rest s = record s { active_id = none }

module _ (env : Call → Reply) (digest : Bytes → Text) (t : Sending) where
  nothing_dropped :
      (b : Bool) (u : Page)
      → Plays env
          (bind (end_as {A = Unit {0}} (ok tt)) ((when b (pure tt) >> modify (set_active none)) u))
          []
          (ok tt)
          (record u { active_id = none })
  unfolding set_active
  nothing_dropped true u = (refl, refl, refl)
  nothing_dropped false u = (refl, refl, refl)

  module _ (file : LocalFile) (h : Takes env digest t file) (st : Store) (s : Page)
      (live : can_go_on t s ≡ true) (some_bytes : 1 ≤ t.chunk_bytes) where
    abbrev opened : Text → Page
    opened id = record s { active_id = some id }

    -- The page with no upload that is open.
    abbrev idle : Page
    idle = record s { active_id = none }

    abbrev stored : Store
    stored = record {
      pending = none;
      files = (path_in t.destination file.name, file.content) ∷ st.files;
    }

    -- The commit of a file that is whole.
    commit_received :
        (id : Text)
        → accept digest (commit id) (receiving env digest t st file file.content) ≡ stored
    unfolding accept
    commit_received id =
        let same : (length file.content == length file.content) ≡ true = ground arith in
        rw same (rw (text_eq_refl (digest file.content)) refl)

    commit_content-Leads :
        Leads digest env
          (receiving env digest t st file file.content)
          (commit_content t file (digest file.content) h.id (opened h.id))
          (ok tt)
          idle
          stored
    unfolding commit_content accept_all is_aborted
    commit_content-Leads = (
      commit h.id ∷ [],
      rw live (refl, rw (h.commits, Plays) (rw (h.confirms, Plays) (rw live (refl, refl, refl)))),
      commit_received h.id,
    )

    send_content-Leads :
        Leads digest env st (send_content t file (digest file.content) s) (ok tt) idle stored
    unfolding send_content accept_all accept can_go_on is_aborted
    send_content-Leads =
        let u = opened h.id in
        let (calls, plays, made) =
          bind-Leads digest env (λ _. commit_content t file (digest file.content) h.id)
            (send_parts (length file.content) t file h.id 0 u) tt u (ok tt) idle
            (receiving env digest t st file []) (receiving env digest t st file file.content) stored
            (send_parts-Leads env digest t file h st u live some_bytes (length file.content) 0
              (omega arith) (omega arith))
            commit_content-Leads in
        (
          create (path_in t.destination file.name) (length file.content) (digest file.content)
              ∷ calls,
          rw live (refl, rw (h.starts, Plays) (rw (h.named, Plays) plays)),
          made,
        )

    send_body-Leads : Leads digest env st (send_body t file s) (ok tt) idle stored
    unfolding send_body accept_all accept
    send_body-Leads =
        let (calls, plays, made) = send_content-Leads in
        (sha file.content ∷ calls, (refl, rw (h.hashed, Plays) plays), made)

    send_file-Leads : Leads digest env st (send_file t file s) (ok tt) idle stored
    unfolding send_file end_file accept_all is_live
    send_file-Leads =
        finally-Leads digest env (end_file t) (catch_prog (file_failed t) (send_body t file s))
          (ok tt) idle idle st stored stored
          (catch-Leads digest env (file_failed t) (send_body t file s) tt idle st stored
            send_body-Leads)
          ([], nothing_dropped (is_live t idle) idle, refl)

  module _ (s : Page) (live : can_go_on t s ≡ true) (some_bytes : 1 ≤ t.chunk_bytes) where
    when_may_send-Leads :
        (file : LocalFile) (kept : List (Text × Bytes)) (b : Bool)
        → (b ≡ true → Takes env digest t file)
        → Leads digest env
            (holding kept)
            (when b (send_file t file) (at_rest s))
            (ok tt)
            (at_rest s)
            (holding (if b then (path_in t.destination file.name, file.content) ∷ kept else kept))
    unfolding can_go_on is_aborted accept_all
    when_may_send-Leads file kept true h =
        send_file-Leads file (h refl) (holding kept) (at_rest s) live some_bytes
    when_may_send-Leads file kept false h = ([], (refl, refl, refl), refl)

    send_each-Leads :
        (files : List LocalFile) (kept : List (Text × Bytes))
        → All (λ file. may_send t file ≡ true → Takes env digest t file) files
        → Leads digest env
            (holding kept)
            (send_each t files (at_rest s))
            (ok tt)
            (at_rest s)
            (holding (files_after t files kept))
    unfolding send_each check_live can_go_on is_aborted accept_all
    send_each-Leads [] kept h = ([], rw live (refl, refl, refl), refl)
    send_each-Leads (file ∷ files) kept h =
        let next =
          if may_send t file
          then (path_in t.destination file.name, file.content) ∷ kept
          else kept in
        let (calls, plays, made) =
          bind-Leads digest env (λ _. send_each t files)
            (when (may_send t file) (send_file t file) (at_rest s)) tt (at_rest s) (ok tt)
            (at_rest s) (holding kept) (holding next) (holding (files_after t files next))
            (when_may_send-Leads file kept (may_send t file) h.0)
            (send_each-Leads files next h.1) in
        (calls, rw live plays, made)

    -- A sending that goes on, of any number of files to a server that takes each of those that may be
    -- sent, with parts of at least one byte, ends well, for any size of the files: the calls that it makes
    -- leave a store that follows the protocol with every file that may be sent, under its path in the
    -- folder and with its whole content, in their order and beside those that it held, and with no upload
    -- that is open.
    pub send_all-AreStored :
        (files : List LocalFile) (kept : List (Text × Bytes)) (v : Value)
        → value_of (env (get_scope write)) ≡ ok v
        → All (λ file. may_send t file ≡ true → Takes env digest t file) files
        → Leads digest env
            (holding kept)
            (send_all t files (at_rest s))
            (ok tt)
            (at_rest s)
            (holding (files_after t files kept))
    unfolding send_all check_live can_go_on is_aborted accept_all accept
    send_all-AreStored files kept v allowed h =
        let (calls, plays, made) = send_each-Leads files kept h in
        (get_scope write ∷ calls, (refl, rw (allowed, Plays) (rw live plays)), made)
