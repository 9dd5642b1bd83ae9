-- ===== src/Kafka/ReadBack.antt =====
-- What is appended to a topic of src/kafka/memory.py can be read where it was put.
use boilerplate_python_fasta.Kafka.{
  Topic, Record, append, read, read_log, String, leb, drop, suc, length, take,
}
use boilerplate_python_fasta.Kafka.Log.{
  IsTopic, Sent, append_all, Appended, appended, append-Appended, IsAt, IsAt-appended, IsAt-new,
}
use boilerplate_python_fasta.Prelude.{
  refl, ℕ, List, Option, some, none, [], ◌∷◌, ◌++◌, drop, ◌≡◌, String, leb, suc, length, ap, take,
  sym, ◌∙◌, false, arith, if◌then◌else◌, length-append,
}

-- The appends return, and the record stands where it stood.
data Kept (partition : ℕ) (r : Record) : Option Topic → Type 0 where
  kept : (t : Topic) → IsAt partition r t → Kept partition r (some t)

Kept-append :
    (partition : ℕ) (r : Record) (rest : List Sent) (t : Topic)
    → IsAt partition r t
    → (key value : Option (List ℕ)) (headers : List (String × List ℕ))
    → (o : Option ((ℕ × Record) × Topic)) → Appended key value headers t o
    → ((t' : Topic) → IsTopic t' → IsAt partition r t' → Kept partition r (append_all rest t'))
    → Kept partition r (elim o [ none ↦ none | some (place, t') ↦ append_all rest t' ])
Kept-append partition r rest t a key value headers o (appended index x log t' g q e h) ih =
    ih t' h (IsAt-appended partition index r x log t t' g e a)

append_all-Kept :
    (partition : ℕ) (r : Record) (rest : List Sent) (t : Topic)
    → IsTopic t
    → IsAt partition r t
    → Kept partition r (append_all rest t)
unfolding append_all
append_all-Kept partition r [] t h a = kept t a
append_all-Kept partition r (((key, value), headers) ∷ rest) t h a =
    Kept-append partition r rest t a key value headers (append key value headers t)
      (append-Appended key value headers t h)
      (λ t' h' a'. append_all-Kept partition r rest t' h' a')

behind_end :
    (before behind : List Record) (r : Record)
    → leb (length (before ++ r ∷ behind)) (length before) ≡ false
behind_end before behind r = ground (arith, length-append before (r ∷ behind))

drop_before : (before rest : List Record) → drop (length before) (before ++ rest) ≡ rest
drop_before [] rest = refl
drop_before (x ∷ before) rest = drop_before before rest

read-IsAt :
    (partition limit : ℕ) (r : Record) (t : Topic) (a : IsAt partition r t)
    → read partition r.offset (suc limit) t ≡ some (r ∷ take limit a.behind)
unfolding read
read-IsAt partition limit r t a =
    ap (read_log r.offset (suc limit)) a.stored
    ∙ ap (λ n. read_log n (suc limit) (some (a.before ++ r ∷ a.behind))) (sym a.offset_is)
    ∙ ap
        (λ b.
          some (
            if b then [] else take (suc limit) (drop (length a.before) (a.before ++ r ∷ a.behind))))
        (behind_end a.before a.behind r)
    ∙ ap (λ l. some (take (suc limit) l)) (drop_before a.before (r ∷ a.behind))

-- A record is appended, and others after it; then it is read from where it was put.
pub record ReadsBack (sent : Sent) (rest : List Sent) (limit : ℕ) (t : Topic) : Type 0 where
  pub partition : ℕ
  pub record_sent : Record
  pub after_it : Topic
  pub at_end : Topic
  pub behind_it : List Record
  pub published : append sent.0.0 sent.0.1 sent.1 t ≡ some ((partition, record_sent), after_it)
  pub others : append_all rest after_it ≡ some at_end
  pub keeps_key : record_sent.key ≡ sent.0.0
  pub keeps_value : record_sent.value ≡ sent.0.1
  pub keeps_headers : record_sent.headers ≡ sent.1
  pub found :
      read partition record_sent.offset (suc limit) at_end
      ≡ some (record_sent ∷ take limit behind_it)

read_back-Kept :
    (sent : Sent) (rest : List Sent) (limit : ℕ) (t : Topic) (partition : ℕ) (r : Record)
    (t' : Topic)
    → append sent.0.0 sent.0.1 sent.1 t ≡ some ((partition, r), t')
    → r.key ≡ sent.0.0
    → r.value ≡ sent.0.1
    → r.headers ≡ sent.1
    → (o : Option Topic) → append_all rest t' ≡ o
    → Kept partition r o
    → ReadsBack sent rest limit t
read_back-Kept sent rest limit t partition r t' e k v h o q (kept t'' a) = record {
  partition = partition;
  record_sent = r;
  after_it = t';
  at_end = t'';
  behind_it = a.behind;
  published = e;
  others = q;
  keeps_key = k;
  keeps_value = v;
  keeps_headers = h;
  found = read-IsAt partition limit r t'' a;
}

read_back-Appended :
    (sent : Sent) (rest : List Sent) (limit : ℕ) (t : Topic) (o : Option ((ℕ × Record) × Topic))
    → append sent.0.0 sent.0.1 sent.1 t ≡ o
    → Appended sent.0.0 sent.0.1 sent.1 t o
    → ReadsBack sent rest limit t
read_back-Appended sent rest limit t o e (appended index r log t' g q l h) =
    read_back-Kept sent rest limit t index r t' e (ap (λ x. x.key) q) (ap (λ x. x.value) q)
      (ap (λ x. x.headers) q) _ refl
      (append_all-Kept index r rest t' h
        (IsAt-new index r log t t' g l (sym (ap (λ x. x.offset) q))))

-- An append to a topic in order returns, and so do any appends after it. The record that it gave
-- back has the key, the value and the headers that were sent, and a read at its partition and
-- offset, with room for at least one, gives that very record first.
pub append-ReadsBack :
    (sent : Sent) (rest : List Sent) (limit : ℕ) (t : Topic)
    → IsTopic t
    → ReadsBack sent rest limit t
append-ReadsBack sent rest limit t h =
    read_back-Appended sent rest limit t _ refl (append-Appended sent.0.0 sent.0.1 sent.1 t h)
