-- ===== src/Files/Reader.antt =====
-- The bounded reading of a response: `bytes` and `request` (web/atlas.js), `json` (web/status.js).
use mysyncfiles.Prelude.{
  ℕ, ◌+◌, Bool, not, ◌&&◌, ◌||◌, Option, none, some, List, [], ◌∷◌, ◌++◌, length, take, drop,
  replicate, ltb, ◌==◌, if◌then◌else◌,
}
use mysyncfiles.Value.{Value, truthy}
use mysyncfiles.Exit.{Error, Exit, ok, err, ◌>>=◌}
use mysyncfiles.Http.{failure, field, is_ok, error_of}

abbrev pub Bytes : Type 0
Bytes = List ℕ

-- What the reader of a body gives: chunks, and then the end, or an error of the connection.
pub data Stream : Type 0 where
  finished : Stream
  broken : Error → Stream
  chunk : Bytes → Stream → Stream

-- The loop of `bytes`: the size so far, and the chunks kept.
unfoldable pub read_chunks : ℕ → ℕ → List Bytes → Stream → Exit (ℕ × List Bytes)
read_chunks limit size chunks finished = ok (size, chunks)
read_chunks limit size chunks (broken e) = err e
read_chunks limit size chunks (chunk value st) =
    let rest = read_chunks limit (size + length value) (chunks ++ value ∷ []) st in
    if ltb limit (size + length value) then err (failure "invalid_response") else rest

-- `value.set(chunk, offset)`, in bounds.
unfoldable pub set_at : Bytes → ℕ → Bytes → Bytes
set_at value offset part = take offset value ++ part ++ drop (offset + length part) value

unfoldable pub copy_chunks : Bytes → ℕ → List Bytes → Bytes
unfolding set_at
copy_chunks value offset [] = value
copy_chunks value offset (c ∷ chunks) =
    copy_chunks (set_at value offset c) (offset + length c) chunks

unfoldable pub bytes : ℕ → Option Stream → Exit Bytes
unfolding read_chunks copy_chunks
bytes limit none = err (failure "invalid_response")
bytes limit (some st) = do
  (size, chunks) ← read_chunks limit 0 [] st
  ok (copy_chunks (replicate size 0) 0 chunks)

-- What `request` gives: the bytes, the parsed body, or that of a local call with its status.
pub data Received : Type 0 where
  raw_body : Bytes → Received
  data_body : Value → Received
  local_body : ℕ → Value → Received

-- What `request` throws for a body that is not accepted.
unfoldable pub rejected : Value → Exit Received
rejected v = do
  e ← field "error" v
  err (if truthy e then error_of e else failure "invalid_response")

-- `JSON.parse(new TextDecoder().decode(body))`
module _ (parse : Bytes → Exit Value) where
  unfoldable pub accept_data : Bool → ℕ → Value → Exit Received
  unfolding rejected
  accept_data local status v =
      if local
      then ok (local_body status v)
      else if not (is_ok status) || status == 202
      then rejected v
      else ok (data_body v)

  -- `request`, once `fetch` has given a response.
  unfoldable pub request : Bool → Bool → ℕ → ℕ → Option Stream → Exit Received
  unfolding accept_data bytes
  request local raw limit status body = do
    b ← bytes limit body
    if raw && is_ok status then ok (raw_body b) else (do v ← parse b; accept_data local status v)

  -- `json` of the presence page.
  unfoldable pub json : Option Stream → Exit Value
  unfolding bytes
  json body = do b ← bytes 4096 body; parse b
