-- ===== src/Editor/Calls.antt =====
-- What the controller waits for: its requests to the server and to the local client, the digest of
-- a text, and promises of its own. Operations on the local client are those of `local`.
use mysyncfiles.Prelude.{ℕ, Text}
use mysyncfiles.Prog
use mysyncfiles.Http.{Answer}
use mysyncfiles.Editor.State.{Editor}

pub data Scope : Type 0 where
  edit run : Scope

pub data Operation : Type 0 where
  tools : Operation
  start : Text → ℕ → Text → Text → Operation
  poll stop : Text → Operation

pub data Call : Type 0 where
  -- a promise that is settled, the save under way, and the opening under way
  tick join join_open : Call
  -- `digest(text)`
  hash : Text → Call
  -- `/v1/web/editor/<scope>/session`, `…/challenges` by POST, `…/challenges/<id>`
  get_session post_challenge : Scope → Call
  get_challenge : Scope → Text → Call
  -- the bridge on this computer, with the ticket of a challenge
  bridge : Text → Call
  -- `/v1/web/editor/file` by GET, and by PUT with the base revision and the content
  get_file : Text → Call
  put_file : Text → ℕ → Text → Call
  -- `/v1/web/editor/tickets`, and the bridge's `/v1/editor` with the ticket
  post_ticket : Operation → Call
  bridge_editor : Text → Call

abbrev pub M : Type 0 → Type 0
M A = Editor → Prog.Prog Call Answer Editor A
