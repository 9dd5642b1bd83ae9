-- ===== src/Idempotency/Exclusive.antt =====
-- One execution for each key, of src/middleware/idempotency.py with the store in memory.
use boilerplate_python_fasta.Idempotency.Capture.{settle, capture_all, no_capture}
use boilerplate_python_fasta.Idempotency.Memory.{MemoryStore, reserve, complete}
use boilerplate_python_fasta.Idempotency.Middleware.{
  executing, Admission, Request, admit, IdempotencyConfig,
}
use boilerplate_python_fasta.Idempotency.System.{
  System, Step, tick, arrives, finishes, Reachable, here, next, start, Execution, without, admitted,
  settled, serve, IsTimely, IsTimelyStep,
}
use boilerplate_python_fasta.Idempotency.Records.{
  Handled, skipped, reserved, Reserved, found, claimed, Writes, entry, reservation, handle-Handled,
  full_key_of, release-Writes, store_record-Writes, fingerprint_of, reserve-Reserved,
}
use boilerplate_python_fasta.Prelude.{
  List, All, ℕ, ◌<◌, ◌≡◌, ◌∷◌, Option, get_elem?, some, [], ◌∙◌, ◌≤◌, subst, ◌+◌, arith, All-map,
  ap, sym, none,
}
use boilerplate_python_fasta.Idempotency.Base.{IdempotencyRecord, StoredResponse}
use mathlib.Core.Option.{none}
use boilerplate_python_fasta.Idempotency.Running.{
  IsOther, Distinct, without-IsOther, All-without, Distinct-without, Distinct-same,
}
use boilerplate_python_fasta.Idempotency.Answers.{existing-admitted, turned_away-admitted}

-- A running execution still has its reservation.
abbrev IsReserved : (now : ℕ) → MemoryStore → Execution → Type 0
IsReserved now store e =
    (entry e.full_key store ≡ some (reservation e.fingerprint, e.deadline)) × (now < e.deadline)

pub record IsExclusive (s : System) : Type 0 where
  pub holds : All (IsReserved s.now s.store) s.running
  pub distinct : Distinct s.running
  pub lasting : 0 < s.store.reservation_ttl

-- A write for another key keeps the reservations.
IsReserved-beside :
    (now : ℕ) (key : List ℕ) (o : Option (IdempotencyRecord × ℕ)) (s t : MemoryStore)
    → Writes key o s t
    → (es : List Execution) → All (IsOther key) es
    → All (IsReserved now s) es
    → All (IsReserved now t) es
IsReserved-beside now key o s t w [] n h = tt
IsReserved-beside now key o s t w (e ∷ es) n h =
    ((w.others e.full_key n.0 ∙ h.0.0, h.0.1), IsReserved-beside now key o s t w es n.1 h.1)

-- A key that can be claimed has no execution.
claimed-IsOther :
    (now : ℕ) (key : List ℕ) (s : MemoryStore)
    → ((r : IdempotencyRecord) (x : ℕ) → entry key s ≡ some (r, x) → x ≤ now)
    → (e : Execution) → IsReserved now s e
    → IsOther key e
claimed-IsOther now key s f e h same =
    omega (arith, h.1, f (reservation e.fingerprint) e.deadline (ap (λ k. entry k s) same ∙ h.0))

IsExclusive-claimed :
    (s : System) (key fingerprint : List ℕ) (t : MemoryStore)
    → ((r : IdempotencyRecord) (x : ℕ) → entry key s.store ≡ some (r, x) → x ≤ s.now)
    → Writes key (some (reservation fingerprint, s.now + s.store.reservation_ttl)) s.store t
    → IsExclusive s
    → IsExclusive (admitted (executing key fingerprint, t) s)
IsExclusive-claimed s key fingerprint t f w h =
    let others =
      All-map (IsReserved s.now s.store) (IsOther key) (claimed-IsOther s.now key s.store f)
        s.running h.holds in
    record {
      holds = (
        (
          w.written
              ∙ ap (λ n. some (reservation fingerprint, s.now + n)) (sym w.same_reservation_ttl),
          omega (arith, h.lasting, w.same_reservation_ttl),
        ),
        IsReserved-beside s.now key _ s.store t w s.running others h.holds,
      );
      distinct = (others, h.distinct);
      lasting = subst (λ n. 0 < n) (sym w.same_reservation_ttl) h.lasting;
    }

IsExclusive-Reserved :
    (config : IdempotencyConfig) (s : System) (key fp : List ℕ)
    (p : Option IdempotencyRecord × MemoryStore)
    → Reserved s.now key fp s.store p
    → IsExclusive s
    → IsExclusive (admitted (admit config key fp (some p.0), p.1) s)
IsExclusive-Reserved config s key fp p (found r x e l) h =
    subst IsExclusive (sym (existing-admitted fp r s)) h
IsExclusive-Reserved config s key fp p (claimed t f w) h = IsExclusive-claimed s key fp t f w h

IsExclusive-Handled :
    (sha : List ℕ → List ℕ) (config : IdempotencyConfig) (r : Request) (s : System)
    (p : Admission × MemoryStore)
    → Handled sha config s.now r s.store p
    → IsExclusive s
    → IsExclusive (admitted p s)
IsExclusive-Handled sha config r s p (skipped a q) h =
    subst IsExclusive (sym (turned_away-admitted a s q)) h
IsExclusive-Handled sha config r s p (reserved key body e z) h =
    let full = full_key_of sha r key in
    let fp = fingerprint_of sha r body in
    IsExclusive-Reserved config s full fp (reserve s.now full fp s.store)
      (reserve-Reserved s.now full fp s.store) h

IsExclusive-written :
    (i : ℕ) (e : Execution) (w : Option (IdempotencyRecord × ℕ)) (s : System) (t : MemoryStore)
    (served : List (List ℕ × List ℕ × StoredResponse))
    → Writes e.full_key w s.store t
    → get_elem? s.running i ≡ some e
    → IsExclusive s
    → IsExclusive
        (record { now = s.now; store = t; running = without i s.running; served = served })
IsExclusive-written i e w s t served writes g h = record {
  holds =
      IsReserved-beside s.now e.full_key w s.store t writes (without i s.running)
        (without-IsOther i e s.running h.distinct g)
        (All-without (IsReserved s.now s.store) i s.running h.holds);
  distinct = Distinct-without i s.running h.distinct;
  lasting = subst (λ n. 0 < n) (sym writes.same_reservation_ttl) h.lasting;
}

IsExclusive-settled :
    (i : ℕ) (e : Execution) (o : Option IdempotencyRecord) (s : System)
    → get_elem? s.running i ≡ some e
    → IsExclusive s
    → IsExclusive (settled e o (record s { running = without i s.running }))
unfolding complete
IsExclusive-settled i e none s g h =
    IsExclusive-written i e none s _ s.served (release-Writes e.full_key s.store) g h
IsExclusive-settled i e (some r) s g h =
    IsExclusive-written i e _ s _ (serve e.full_key e.fingerprint r.response s.served)
      (store_record-Writes e.full_key r (s.now + s.store.record_ttl) s.store) g h

earlier_deadlines :
    (now later : ℕ) (store : MemoryStore) (es : List Execution)
    → All (λ e. later < e.deadline) es
    → All (IsReserved now store) es
    → All (IsReserved later store) es
earlier_deadlines now later store [] l h = tt
earlier_deadlines now later store (e ∷ es) l h =
    ((h.0.0, l.0), earlier_deadlines now later store es l.1 h.1)

IsExclusive-Step :
    (sha : List ℕ → List ℕ) (config : IdempotencyConfig) (s t : System)
    → (q : Step sha config s t) → IsTimelyStep q
    → IsExclusive s
    → IsExclusive t
IsExclusive-Step sha config s t (tick later up) l h = record {
  holds = earlier_deadlines s.now later s.store s.running l h.holds;
  distinct = h.distinct;
  lasting = h.lasting;
}
IsExclusive-Step sha config s t (arrives r) l h =
    IsExclusive-Handled sha config r s _ (handle-Handled sha config s.now r s.store) h
IsExclusive-Step sha config s t (finishes raised sent i e g) l h =
    IsExclusive-settled i e
      (settle e.fingerprint raised (capture_all config.max_response_body_bytes sent no_capture)) s g
      h

pub IsExclusive-Reachable :
    (sha : List ℕ → List ℕ) (config : IdempotencyConfig) (store : MemoryStore) (s : System)
    → 0 < store.reservation_ttl
    → (reach : Reachable sha config (start store) s) → IsTimely reach
    → IsExclusive s
IsExclusive-Reachable sha config store s l here timely = record {
  holds = tt;
  distinct = tt;
  lasting = l;
}
IsExclusive-Reachable sha config store t l (next s t' r q) (timely, step) =
    IsExclusive-Step sha config s t q step (IsExclusive-Reachable sha config store s l r timely)

-- While executions end before their reservations expire, and reservations last at all, two
-- executions with the same key are the same execution: a key is executed once at a time.
pub one_execution :
    (sha : List ℕ → List ℕ) (config : IdempotencyConfig) (store : MemoryStore) (s : System)
    (i j : ℕ) (e f : Execution)
    → 0 < store.reservation_ttl
    → (reach : Reachable sha config (start store) s) → IsTimely reach
    → get_elem? s.running i ≡ some e
    → get_elem? s.running j ≡ some f
    → e.full_key ≡ f.full_key
    → i ≡ j
one_execution sha config store s i j e f l r timely g k same =
    Distinct-same s.running i j e f (IsExclusive-Reachable sha config store s l r timely).distinct g
      k same
