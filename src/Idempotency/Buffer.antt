-- ===== src/Idempotency/Buffer.antt =====
-- `_buffer_request` and `_ReplayReceive` of src/middleware/idempotency.py. A stream of ASGI messages
-- that is over goes on with `http.disconnect`.
pub mod Faithful
use boilerplate_python_fasta.Prelude.{
  refl, ℕ, [], List, ◌∷◌, Option, Bool, true, false, some, ◌==◌, if◌then◌else◌, ◌++◌, ◌||◌, none,
  not, ltb, ◌&&◌, leb, map, length,
}
use boilerplate_python_fasta.Idempotency.Base.{
  StoredResponse, KeyError, IdempotencyRecord, storage_key, validate_idempotency_key,
  scope_fingerprint, request_fingerprint,
}
use boilerplate_python_fasta.Prelude.Text.{codes, same_codes}
use boilerplate_python_fasta.Resilience.Policy.{any}
use mathlib.Core.Option.{none}
use boilerplate_python_fasta.Webhooks.Signature.{lower}

pub data Message : Type 0 where
  http_request : (body : List ℕ) (more_body : Bool) → Message
  http_disconnect : Message

pub record Buffered : Type 0 where
  pub messages : List Message
  pub body : List ℕ
  pub truncated : Bool
  pub left : List Message

abbrev pub keep_message : Message → Buffered → Buffered
keep_message m b = record b { messages = m ∷ b.messages }

-- The loop of `_buffer_request`, with the body so far; `left` is what `receive` has left.
unfoldable pub buffer_request : (limit : ℕ) (body : List ℕ) → List Message → Buffered
buffer_request limit body [] = record {
  messages = http_disconnect ∷ [];
  body = body;
  truncated = false;
  left = [];
}
buffer_request limit body (http_disconnect ∷ rest) = record {
  messages = http_disconnect ∷ [];
  body = body;
  truncated = false;
  left = rest;
}
buffer_request limit body (http_request chunk more ∷ rest) =
    let m = http_request chunk more in
    let next = keep_message m (buffer_request limit (body ++ chunk) rest) in
    if ltb limit (length (body ++ chunk))
    then record { messages = m ∷ []; body = []; truncated = true; left = rest }
    else if more
    then next
    else record { messages = m ∷ []; body = body ++ chunk; truncated = false; left = rest }

unfoldable pub receive : List Message → Message × List Message
receive [] = (http_disconnect, [])
receive (m ∷ rest) = (m, rest)

-- `_ReplayReceive`
pub record ReplayReceive : Type 0 where
  pub pending : List Message
  pub socket : List Message

abbrev pub from_socket : Message × List Message → Message × ReplayReceive
from_socket (m, rest) = (m, record { pending = []; socket = rest })

abbrev pub replay_pending : (pending socket : List Message) → Message × ReplayReceive
replay_pending [] socket = from_socket (receive socket)
replay_pending (m ∷ pending) socket = (m, record { pending = pending; socket = socket })

unfoldable pub replay_receive : ReplayReceive → Message × ReplayReceive
replay_receive r = replay_pending r.pending r.socket
