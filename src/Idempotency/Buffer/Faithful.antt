-- ===== src/Idempotency/Buffer/Faithful.antt =====
-- Buffering the request, in src/middleware/idempotency.py, does not change it.
use mathlib.Core.List.{append_assoc, append-nil}
use boilerplate_python_fasta.Prelude.{
  refl, ℕ, List, [], ◌∷◌, ◌≡◌, suc, false, ap, ◌++◌, zero, length, ◌≤◌, true, ◌<◌, Bool, ◌∙◌, ltb,
  Bool-cases, sym, subst, inl, inr, arith,
}
use boilerplate_python_fasta.Idempotency.Buffer.{
  Message, replay_receive, [], ReplayReceive, receive, Buffered, ◌∷◌, http_request, false, length,
  http_disconnect, true, Bool, buffer_request, ltb, keep_message,
}

abbrev pub received : ℕ → List Message → List Message
received zero stream = []
received (suc n) stream = let (m, rest) = receive stream in m ∷ received n rest

abbrev pub replay_received : ℕ → ReplayReceive → List Message
replay_received zero r = []
replay_received (suc n) r = let (m, rest) = replay_receive r in m ∷ replay_received n rest

-- The bodies of the messages of a request.
abbrev pub bodies : List Message → List ℕ
bodies [] = []
bodies (http_request chunk more ∷ rest) = chunk ++ bodies rest
bodies (http_disconnect ∷ rest) = bodies rest

-- What was buffered from a stream, after the body so far.
pub record Reads (limit : ℕ) (body : List ℕ) (stream : List Message) (b : Buffered) : Type 0 where
  pub unchanged :
      (n : ℕ)
      → replay_received n (record { pending = b.messages; socket = b.left }) ≡ received n stream
  pub whole : b.truncated ≡ false → b.body ≡ body ++ bodies b.messages
  pub bounded : b.truncated ≡ false → length body ≤ limit → length b.body ≤ limit
  pub too_long : b.truncated ≡ true → limit < length (body ++ bodies b.messages)

socket_received :
    (n : ℕ) (stream : List Message)
    → replay_received n (record { pending = []; socket = stream }) ≡ received n stream
unfolding replay_receive receive
socket_received zero stream = refl
socket_received (suc n) [] = ap (λ r. http_disconnect ∷ r) (socket_received n [])
socket_received (suc n) (m ∷ stream) = ap (λ r. m ∷ r) (socket_received n stream)

first_received :
    (m : Message) (pending socket stream : List Message)
    → ((n : ℕ)
        → replay_received n (record { pending = pending; socket = socket }) ≡ received n stream)
    → (n : ℕ)
    → replay_received n (record { pending = m ∷ pending; socket = socket })
      ≡ received n (m ∷ stream)
unfolding replay_receive receive
first_received m pending socket stream h zero = refl
first_received m pending socket stream h (suc n) = ap (λ r. m ∷ r) (h n)

last_received :
    (m : Message) (stream : List Message) (n : ℕ)
    → replay_received n (record { pending = m ∷ []; socket = stream }) ≡ received n (m ∷ stream)
last_received m stream = first_received m [] stream stream (λ n. socket_received n stream)

over_received : (n : ℕ) → received n (http_disconnect ∷ []) ≡ received n []
unfolding receive
over_received zero = refl
over_received (suc n) = refl

Reads-end :
    (limit : ℕ) (body : List ℕ) (stream left : List Message)
    → ((n : ℕ) → received n (http_disconnect ∷ left) ≡ received n stream)
    → Reads limit body stream
        (record { messages = http_disconnect ∷ []; body = body; truncated = false; left = left })
Reads-end limit body stream left h = record {
  unchanged = λ n. last_received http_disconnect left n ∙ h n;
  whole = λ t. sym (append-nil body);
  bounded = λ t l. l;
  too_long = λ t. cc;
}

Reads-last :
    (limit : ℕ) (body chunk : List ℕ) (more : Bool) (rest : List Message)
    → ltb limit (length (body ++ chunk)) ≡ false
    → Reads limit body (http_request chunk more ∷ rest) (record {
      messages = http_request chunk more ∷ [];
      body = body ++ chunk;
      truncated = false;
      left = rest;
    })
Reads-last limit body chunk more rest h = record {
  unchanged = last_received (http_request chunk more) rest;
  whole = λ t. ap (λ c. body ++ c) (sym (append-nil chunk));
  bounded = λ t l. ground (arith, h);
  too_long = λ t. cc;
}

Reads-truncated :
    (limit : ℕ) (body chunk : List ℕ) (more : Bool) (rest : List Message)
    → ltb limit (length (body ++ chunk)) ≡ true
    → Reads limit body (http_request chunk more ∷ rest) (record {
      messages = http_request chunk more ∷ [];
      body = [];
      truncated = true;
      left = rest;
    })
Reads-truncated limit body chunk more rest h = record {
  unchanged = last_received (http_request chunk more) rest;
  whole = λ t. cc;
  bounded = λ t l. cc;
  too_long =
      λ t. subst (λ c. limit < length (body ++ c)) (sym (append-nil chunk)) (ground (arith, h));
}

Reads-next :
    (limit : ℕ) (body chunk : List ℕ) (more : Bool) (rest : List Message) (b : Buffered)
    → ltb limit (length (body ++ chunk)) ≡ false
    → Reads limit (body ++ chunk) rest b
    → Reads limit body (http_request chunk more ∷ rest) (keep_message (http_request chunk more) b)
Reads-next limit body chunk more rest b h r = record {
  unchanged = first_received (http_request chunk more) b.messages b.left rest r.unchanged;
  whole = λ t. r.whole t ∙ append_assoc body chunk (bodies b.messages);
  bounded = λ t l. r.bounded t (ground (arith, h));
  too_long = λ t.
      subst (λ c. limit < length c) (append_assoc body chunk (bodies b.messages)) (r.too_long t);
}

Reads-request :
    (limit : ℕ) (body chunk : List ℕ) (more : Bool) (rest : List Message)
    → Reads limit (body ++ chunk) rest (buffer_request limit (body ++ chunk) rest)
    → Reads limit body
        (http_request chunk more ∷ rest)
        (buffer_request limit body (http_request chunk more ∷ rest))
unfolding buffer_request
Reads-request limit body chunk true rest r =
    elim (Bool-cases (ltb limit (length (body ++ chunk)))) [
      | inl h ↦ rw h (Reads-truncated limit body chunk true rest h)
      | inr h ↦ rw h (Reads-next limit body chunk true rest _ h r)
    ]
Reads-request limit body chunk false rest r =
    elim (Bool-cases (ltb limit (length (body ++ chunk)))) [
      | inl h ↦ rw h (Reads-truncated limit body chunk false rest h)
      | inr h ↦ rw h (Reads-last limit body chunk false rest h)
    ]

buffer_from-Reads :
    (limit : ℕ) (body : List ℕ) (stream : List Message)
    → Reads limit body stream (buffer_request limit body stream)
unfolding buffer_request
buffer_from-Reads limit body [] = Reads-end limit body [] [] over_received
buffer_from-Reads limit body (http_disconnect ∷ rest) =
    Reads-end limit body (http_disconnect ∷ rest) rest (λ n. refl)
buffer_from-Reads limit body (http_request chunk more ∷ rest) =
    Reads-request limit body chunk more rest (buffer_from-Reads limit (body ++ chunk) rest)

-- Reading the request leaves what the app receives as it was, one message at a time. A body that is
-- not cut off is the bodies of the messages read, and is no longer than the limit; a body that is
-- cut off is longer.
pub buffer_request-Reads :
    (limit : ℕ) (stream : List Message) → Reads limit [] stream (buffer_request limit [] stream)
buffer_request-Reads limit stream = buffer_from-Reads limit [] stream
