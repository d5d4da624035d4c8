-- ===== src/Files/Sending.antt =====
-- The theorem about a sending, at one file that is sent in parts and one that may not be sent.
use mysyncfiles.Prelude.{
  ◌+◌, ℕ, ◌==◌, arith, ◌≡◌, refl, true, some, [], ◌∷◌, Text, codes, has_unit, is_any, length,
  text_eq, utf8_length,
}
use mysyncfiles.Value.{
  Value, obj, prop, str, num, pos, null, end, get, as_text, is_text, is_number, is_uuid, safe_nat,
  truthy,
}
use mysyncfiles.Exit.{ok}
use mysyncfiles.Http.{reply, body_of, field, optional}
use mysyncfiles.Editor.Checks.{digest_of}
use mysyncfiles.Files.State.{Session, Page, is_aborted}
use mysyncfiles.Files.Calls.{
  Call, Reply, raw, answer, sha, create, put, commit, get_scope, hash_of, value_of,
}
use mysyncfiles.Files.Upload.{
  Sending, LocalFile, path_in, may_send, can_go_on, started_id, part_check, commit_check, send_all,
}
use mysyncfiles.Files.Reachable.{initial}
use mysyncfiles.Files.Taken.{Takes}
use mysyncfiles.Files.Store.{Leads}
use mysyncfiles.Files.Stored.{holding, at_rest, send_all-AreStored}

abbrev session : Session
session = record {
  expires_at = 2000;
  device_name = codes "pc";
  chunk_bytes = 2;
  download_limit = 268435456;
  upload_allowed = true;
  manage_allowed = true;
  remaining = 1800000;
}

abbrev page : Page
page = record initial { shown = record initial.shown { session = some session } }

abbrev sending : Sending
sending = record {
  id = 0;
  current = 0;
  limit = 268435456;
  chunk_bytes = 2;
  destination = codes "docs";
}

abbrev note : LocalFile
note = record { name = codes "a.txt"; content = 1 ∷ 2 ∷ 3 ∷ [] }

abbrev hidden : LocalFile
hidden = record { name = codes ".."; content = 4 ∷ [] }

abbrev identifier : Text
identifier = codes "0123abcd-0123-4567-89ab-0123456789ab"

abbrev started : Value
started = obj (prop "id" (str identifier) (prop "offset" (num (pos 0)) end))

abbrev entry : Value
entry = obj (
    prop "path" (str (codes "docs/a.txt")) (
      prop "sha256" (str (1 ∷ 2 ∷ 3 ∷ []))
        (prop "size" (num (pos 3)) (prop "revision" (num (pos 5)) end))))

-- A server that takes that file; the digest of a content is the content itself.
unfoldable server : Call → Reply
server (sha b) = answer (reply 200 (str b))
server (get_scope scope) = answer (reply 200 null)
server (create path size sha256) = answer (reply 200 started)
server (put id offset b) =
    answer
      (reply 200 (obj (prop "id" (str id) (prop "offset" (num (pos (offset + length b))) end))))
server (commit id) = answer (reply 200 entry)
server _ = raw []

told :
    (n : ℕ)
    → part_check identifier n (obj (prop "id" (str identifier) (prop "offset" (num (pos n)) end)))
      ≡ ok tt
unfolding part_check field optional get is_text is_number text_eq
told n = let same : (n == n) ≡ true = ground arith in rw same refl

Takes-note : Takes server (λ b. b) sending note
unfolding server hash_of digest_of value_of body_of started_id part_check commit_check field
    optional get as_text is_text is_number is_uuid safe_nat truthy text_eq path_in
Takes-note = record {
  id = identifier;
  hashed = refl;
  start = started;
  starts = refl;
  named = refl;
  part = λ offset b.
      obj (prop "id" (str identifier) (prop "offset" (num (pos (offset + length b))) end));
  takes = λ offset b. refl;
  agrees = λ offset b. told (offset + length b);
  entry = entry;
  commits = refl;
  confirms = refl;
}

send_all-AreStored_example :
    Leads
      (λ b. b)
      server
      (holding [])
      (send_all sending (note ∷ hidden ∷ []) (at_rest page))
      (ok tt)
      (at_rest page)
      (holding ((codes "docs/a.txt", 1 ∷ 2 ∷ 3 ∷ []) ∷ []))
unfolding server may_send can_go_on is_aborted value_of has_unit is_any utf8_length text_eq path_in
    body_of
send_all-AreStored_example =
    send_all-AreStored server (λ b. b) sending page refl (omega arith) (note ∷ hidden ∷ []) [] null
      refl ((λ _. Takes-note), ((λ no. let bad : ⊥ = cc in elim bad [ ]), tt))
