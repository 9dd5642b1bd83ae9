-- ===== src/Kafka/Log.antt =====
-- A partition of src/kafka/memory.py is a log that only grows.
use mathlib.Core.Option.{some-injective}
use boilerplate_python_fasta.Kafka.{
  partition_for, Topic, ℕ, some, String, length, get_elem?, set, ◌∷◌, append, suc, Record,
  append_to,
}
use mathlib.Core.List.{append_assoc}
use boilerplate_python_fasta.Prelude.{
  refl, Option, List, ◌<◌, ℕ, some, String, ◌≢◌, length, get_elem?, ◌≡◌, set, arith, ◌∷◌, none, ap,
  [], zero, ◌∙◌, ◌++◌, sym, ℕ_discrete,
}
use mathlib.Core.Option.{none}

abbrev pub IsTopic : Topic → Type 0
IsTopic t = t.next_partition < length t.logs

-- A further record: its key, its value and its headers.
abbrev pub Sent : Type 0
Sent = (Option (List ℕ) × Option (List ℕ)) × List (String × List ℕ)

unfoldable pub append_all : List Sent → Topic → Option Topic
append_all [] t = some t
append_all (((key, value), headers) ∷ rest) t = elim (append key value headers t) [
  | none ↦ none
  | some (place, t') ↦ append_all rest t'
]

in_bounds :
    {A : Type 0} → (xs : List A) (i : ℕ) → i < length xs → (x : A) × (get_elem? xs i ≡ some x)
in_bounds [] i l = absurd (omega (arith, l))
in_bounds (x ∷ xs) zero l = (x, refl)
in_bounds (x ∷ xs) (suc i) l = in_bounds xs i (omega (arith, l))

length-set : {A : Type 0} → (xs : List A) (i : ℕ) (v : A) → length (set xs i v) ≡ length xs
length-set [] i v = refl
length-set (x ∷ xs) zero v = refl
length-set (x ∷ xs) (suc i) v = ap suc (length-set xs i v)

get-set-same :
    {A : Type 0}
    → (xs : List A) (i : ℕ) (x v : A) → get_elem? xs i ≡ some x
    → get_elem? (set xs i v) i ≡ some v
get-set-same [] i x v h = cc
get-set-same (y ∷ xs) zero x v h = refl
get-set-same (y ∷ xs) (suc i) x v h = get-set-same xs i x v h

get-set-other :
    {A : Type 0}
    → (xs : List A) (i j : ℕ) (v : A) → i ≢ j
    → get_elem? (set xs i v) j ≡ get_elem? xs j
get-set-other [] i j v n = refl
get-set-other (y ∷ xs) zero zero v n = absurd (n refl)
get-set-other (y ∷ xs) zero (suc j) v n = refl
get-set-other (y ∷ xs) (suc i) zero v n = refl
get-set-other (y ∷ xs) (suc i) (suc j) v n = get-set-other xs i j v (λ e. n (ap suc e))

-- The partition is in range, and the cursor stays in range.
partition_for-IsTopic :
    (key : Option (List ℕ)) (t : Topic)
    → IsTopic t
    → ((partition_for key t).0 < length t.logs)
      × IsTopic (partition_for key t).1
      × ((partition_for key t).1.logs ≡ t.logs)
unfolding partition_for
partition_for-IsTopic none t h = (h, omega (arith, h), refl)
partition_for-IsTopic (some key) t h = (omega (arith, h), h, refl)

-- What an append returns, and what it does to the logs.
pub data Appended (key value : Option (List ℕ)) (headers : List (String × List ℕ)) (t : Topic)
    : Option ((ℕ × Record) × Topic) → Type 0 where
  appended :
      (index : ℕ) (r : Record) (log : List Record) (t' : Topic)
      → get_elem? t.logs index ≡ some log
      → r ≡ (record { offset = length log; key = key; value = value; headers = headers })
      → t'.logs ≡ set t.logs index (log ++ r ∷ [])
      → IsTopic t'
      → Appended key value headers t (some ((index, r), t'))

append_to-Appended :
    (index : ℕ) (log : List Record) (key value : Option (List ℕ)) (headers : List (String × List ℕ))
    (t t' : Topic)
    → t'.logs ≡ t.logs
    → IsTopic t'
    → (o : Option (List Record)) → o ≡ some log
    → get_elem? t.logs index ≡ some log
    → Appended key value headers t (append_to index o key value headers t')
append_to-Appended index log key value headers t t' same h none e g = cc
append_to-Appended index log key value headers t t' same h (some l) e g =
    let r : Record = record { offset = length l; key = key; value = value; headers = headers } in
    let valid : t'.next_partition < length (set t'.logs index (l ++ r ∷ [])) =
      omega (arith, h, length-set t'.logs index (l ++ r ∷ [])) in
    appended index r l (record t' { logs = set t'.logs index (l ++ r ∷ []) }) (g ∙ sym e) refl
      (ap (λ ls. set ls index (l ++ r ∷ [])) same) valid

pub append-Appended :
    (key value : Option (List ℕ)) (headers : List (String × List ℕ)) (t : Topic)
    → IsTopic t
    → Appended key value headers t (append key value headers t)
unfolding append
append-Appended key value headers t h =
    let p = partition_for-IsTopic key t h in
    let (log, g) = in_bounds t.logs (partition_for key t).0 p.0 in
    append_to-Appended (partition_for key t).0 log key value headers t (partition_for key t).1 p.2
      p.1 _ (ap (λ ls. get_elem? ls (partition_for key t).0) p.2 ∙ g) g

-- A record stands at an offset of a partition.
pub record IsAt (partition : ℕ) (r : Record) (t : Topic) : Type 0 where
  pub before : List Record
  pub behind : List Record
  pub stored : get_elem? t.logs partition ≡ some (before ++ r ∷ behind)
  pub offset_is : length before ≡ r.offset

pub IsAt-appended :
    (partition index : ℕ) (r x : Record) (log : List Record) (t t' : Topic)
    → get_elem? t.logs index ≡ some log
    → t'.logs ≡ set t.logs index (log ++ x ∷ [])
    → IsAt partition r t
    → IsAt partition r t'
IsAt-appended partition index r x log t t' g e a = elim (ℕ_discrete index partition) [
  | yes q ↦ record {
    before = a.before;
    behind = a.behind ++ x ∷ [];
    stored =
        ap (λ ls. get_elem? ls partition) e
        ∙ ap (λ k. get_elem? (set t.logs k (log ++ x ∷ [])) partition) q
        ∙ get-set-same t.logs partition log (log ++ x ∷ [])
            (ap (λ k. get_elem? t.logs k) (sym q) ∙ g)
        ∙ ap (λ l. some (l ++ x ∷ []))
            (some-injective _ _ (sym g ∙ ap (λ k. get_elem? t.logs k) q ∙ a.stored))
        ∙ ap some (append_assoc a.before (r ∷ a.behind) (x ∷ []));
    offset_is = a.offset_is;
  }
  | no n ↦ record {
    before = a.before;
    behind = a.behind;
    stored =
        ap (λ ls. get_elem? ls partition) e
        ∙ get-set-other t.logs index partition (log ++ x ∷ []) n
        ∙ a.stored;
    offset_is = a.offset_is;
  }
]

pub IsAt-new :
    (index : ℕ) (r : Record) (log : List Record) (t t' : Topic)
    → get_elem? t.logs index ≡ some log
    → t'.logs ≡ set t.logs index (log ++ r ∷ [])
    → length log ≡ r.offset
    → IsAt index r t'
IsAt-new index r log t t' g e o = record {
  before = log;
  behind = [];
  stored = ap (λ ls. get_elem? ls index) e ∙ get-set-same t.logs index log (log ++ r ∷ []) g;
  offset_is = o;
}
