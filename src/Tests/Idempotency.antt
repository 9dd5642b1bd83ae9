-- ===== src/Tests/Idempotency.antt =====
-- Requests with an idempotency key at concrete inputs.
use boilerplate_python_fasta.Idempotency.Base.{
  IdempotencyRecord, StoredResponse, request_fingerprint, framed, scope_fingerprint,
  validate_idempotency_key,
}
use boilerplate_python_fasta.Idempotency.Base.Framing.{parts, IsCollision, request_fingerprint_told}
use boilerplate_python_fasta.Idempotency.Buffer.{
  Message, http_request, http_disconnect, buffer_request,
}
use boilerplate_python_fasta.Idempotency.Buffer.Faithful.{Reads, buffer_request-Reads}
use boilerplate_python_fasta.Idempotency.Capture.{
  Sent, response_start, capture, capture_all, settle, send_stored, no_capture, without_cookies,
  forward,
}
use boilerplate_python_fasta.Idempotency.Capture.Replayed.{
  chunked, kept, stored_replayed, IsAgain, see, unseen,
}
use boilerplate_python_fasta.Idempotency.Memory.{release, MemoryStore, reserve, complete, live}
use boilerplate_python_fasta.Idempotency.Middleware.{
  executing, IdempotencyConfig, Request, replayed, handle_existing, handle, applies_to, starts_with,
}
use boilerplate_python_fasta.Idempotency.System.{
  System, start, arrive, finish, Execution, Reachable, here, next, tick, arrives, finishes, handled,
}
use boilerplate_python_fasta.Idempotency.Exclusive.{one_execution}
use boilerplate_python_fasta.Idempotency.Running.{IsOther}
use boilerplate_python_fasta.Idempotency.Retries.{completed_replays, retry_answer}
use boilerplate_python_fasta.Idempotency.Protected.{IsProtected}
use boilerplate_python_fasta.Idempotency.Records.{full_key_of, fingerprint_of}
use boilerplate_python_fasta.Idempotency.Replays.{IsReplay, replayed-IsReplay}
use boilerplate_python_fasta.Prelude.Dict
use boilerplate_python_fasta.Prelude.Text.{show, digits, codes_discrete}
use boilerplate_python_fasta.Prelude.Pattern.{match_plus, match_star}
use boilerplate_python_fasta.Prelude.{
  ℕ_discrete, refl, true, option_map, get_elem?, [], List, ◌∷◌, false, ℕ, none, ◌≡◌, ◌⊎◌, some,
  arith, All, ◌+◌, length, map,
}
use boilerplate_python_fasta.Prelude.Text.{codes}

abbrev sha : List ℕ → List ℕ
sha material = material

abbrev post : List ℕ
post = codes "POST"

abbrev path : List ℕ
path = codes "/api/p"

abbrev stream : List Message
stream = http_request (1 ∷ []) true ∷ http_request (2 ∷ []) false ∷ http_disconnect ∷ []

request_fingerprint_told_example :
    (parts (codes "post") path [] (1 ∷ []) [] ≡ parts post path [] (1 ∷ []) [])
    ⊎ IsCollision sha
        (framed (parts (codes "post") path [] (1 ∷ []) []))
        (framed (parts post path [] (1 ∷ []) []))
unfolding request_fingerprint
request_fingerprint_told_example =
    request_fingerprint_told sha (codes "post") post path path [] [] (1 ∷ []) (1 ∷ []) [] [] refl

buffer_request-Reads_example : Reads 9 [] stream (buffer_request 9 [] stream)
buffer_request-Reads_example = buffer_request-Reads 9 stream

abbrev cookie : List (List ℕ × List ℕ)
cookie = (codes "Set-Cookie", codes "s") ∷ (codes "etag", codes "1") ∷ []

stored_replayed_example :
    (stored : StoredResponse) × (option_map (handle_existing (7 ∷ [])) (
        settle
          (7 ∷ [])
          false
          (capture_all 9 (response_start 201 cookie ∷ chunked ((1 ∷ []) ∷ []) (2 ∷ [])) no_capture))
      ≡ some (replayed stored))
    × IsAgain
        (see
          (map (forward (codes "k")) (response_start 201 cookie ∷ chunked ((1 ∷ []) ∷ []) (2 ∷ [])))
          unseen)
        (see (send_stored (codes "k") stored) unseen)
stored_replayed_example =
    stored_replayed 9 201 cookie ((1 ∷ []) ∷ []) (2 ∷ []) (codes "k") (7 ∷ []) (omega arith)
      (λ e. omega (arith, e)) (λ e. omega (arith, e)) (λ e. omega (arith, e)) (omega arith)

abbrev config : IdempotencyConfig
config = record {
  methods = post ∷ [];
  path_prefixes = codes "/api/" ∷ [];
  max_request_body_bytes = 9;
  max_response_body_bytes = 9;
  fail_open = false;
  enabled = true;
}

abbrev request : Request
request = record {
  is_http = true;
  method = post;
  path = path;
  query = [];
  content_type = [];
  authorization = none;
  idempotency_key = some (codes "k");
  messages = stream;
}

abbrev empty_store : MemoryStore
empty_store = record { records = []; record_ttl = 50; reservation_ttl = 5 }

abbrev answer : List Sent
answer = response_start 201 cookie ∷ chunked [] (2 ∷ [])

abbrev fingerprint : List ℕ
fingerprint = request_fingerprint sha post path [] (1 ∷ 2 ∷ []) []

abbrev execution : Execution
execution = record { full_key = codes "anon:k"; fingerprint = fingerprint; deadline = 5 }

abbrev under_way : System
under_way = arrive sha config request (start empty_store)

abbrev reached : Reachable sha config (start empty_store) under_way
reached = next (start empty_store) under_way here (arrives request)

running : get_elem? under_way.running 0 ≡ some execution
unfolding handle applies_to starts_with validate_idempotency_key buffer_request scope_fingerprint
    reserve live Dict.get match_plus match_star
running = refl

one_execution_example : ◌≡◌ {A = ℕ} 0 0
one_execution_example =
    one_execution sha config empty_store under_way 0 0 execution execution (omega arith) reached
      (tt, tt) running running refl

abbrev stored : StoredResponse
stored = kept 201 cookie (2 ∷ [])

abbrev completed : IdempotencyRecord
completed = record { fingerprint = fingerprint; response = some stored }

abbrev over : System
over = finish 9 false answer 0 execution under_way

clock_of_over : over.now ≡ 0
unfolding handle applies_to starts_with validate_idempotency_key buffer_request scope_fingerprint
    reserve live Dict.get match_plus match_star settle capture_all capture complete without_cookies
    handle_existing Dict.put Dict.remove request_fingerprint framed show digits codes_discrete
    ℕ_discrete
clock_of_over = refl

kept_until : under_way.now + under_way.store.record_ttl ≡ 50
unfolding handle applies_to starts_with validate_idempotency_key buffer_request scope_fingerprint
    reserve live Dict.get match_plus match_star settle capture_all capture complete without_cookies
    handle_existing Dict.put Dict.remove request_fingerprint framed show digits codes_discrete
    ℕ_discrete
kept_until = refl

is_settled : settle execution.fingerprint false (capture_all 9 answer no_capture) ≡ some completed
unfolding settle capture_all capture
is_settled = refl

is_answered : (handled sha config request over).0 ≡ replayed stored
unfolding handle applies_to starts_with validate_idempotency_key buffer_request scope_fingerprint
    reserve live Dict.get match_plus match_star settle capture_all capture complete without_cookies
    handle_existing Dict.put Dict.remove request_fingerprint framed show digits codes_discrete
    ℕ_discrete
is_answered = refl

abbrev retried : System
retried = record over { now = 20 }

abbrev after : Reachable sha config over retried
after = next over retried here (tick 20 (omega (arith, clock_of_over)))

request-IsProtected : IsProtected config request (codes "k") (1 ∷ 2 ∷ [])
request-IsProtected = record {
  over_http = refl;
  enabled = refl;
  method = (0, refl);
  path = (0, codes "/api/", codes "p", refl, refl);
  carried = refl;
  present = omega arith;
  short = omega arith;
  visible = refl;
  upload = ((1 ∷ []) ∷ [], 2 ∷ [], http_disconnect ∷ [], refl, refl);
  fits = omega arith;
}

same_key : full_key_of sha request (codes "k") ≡ codes "anon:k"
unfolding scope_fingerprint
same_key = refl

completed_replays_example :
    (handled sha config request retried
      ≡ (retry_answer (fingerprint_of sha request (1 ∷ 2 ∷ [])) fingerprint stored, retried.store))
    × All (IsOther (codes "anon:k")) retried.running
completed_replays_example =
    completed_replays sha config empty_store under_way retried false answer 0 execution stored
      request (codes "k") (1 ∷ 2 ∷ []) (omega arith) reached (tt, tt) running is_settled after
      (omega (arith, kept_until)) request-IsProtected same_key

abbrev over_reached : Reachable sha config (start empty_store) over
over_reached = next under_way over reached (finishes false answer 0 execution running)

replayed-IsReplay_example : IsReplay sha config request over.served stored
replayed-IsReplay_example =
    replayed-IsReplay sha config empty_store over request stored refl over_reached is_answered

-- An execution outlives its reservation; the key is reserved again, and the end of the first
-- execution releases it, so that a third request executes beside the second.
abbrev reserved_again : System
reserved_again = arrive sha config request (record under_way { now = 6 })

abbrev first_ended : System
first_ended = finish 9 true [] 1 execution reserved_again

late_release :
    (length first_ended.running ≡ 1)
    × ((handled sha config request first_ended).0 ≡ executing (codes "anon:k") fingerprint)
unfolding handle applies_to starts_with validate_idempotency_key buffer_request scope_fingerprint
    reserve live Dict.get match_plus match_star settle capture_all capture complete without_cookies
    handle_existing Dict.put Dict.remove request_fingerprint framed show digits codes_discrete
    ℕ_discrete release
late_release = (refl, refl)
