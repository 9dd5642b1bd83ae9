-- ===== src/Kafka/Assignment.antt =====
-- How the partitions of src/kafka/memory.py are shared out over the members of a group.
use boilerplate_python_fasta.Kafka.{
  Partition, Partition-discrete, rebalance, rebalance_from, assigned, replicate, suc, leb, ltb,
  length,
}
use boilerplate_python_fasta.Prelude.Lists.{count, total}
use boilerplate_python_fasta.Prelude.{
  refl, ℕ, List, [], ◌∷◌, ◌+◌, ◌%◌, ◌≡◌, zero, if◌then◌else◌, leb, ◌==◌, arith, ◌&&◌, ltb, length,
  ◌<◌, ap, ◌∙◌,
}

-- A weight, as often as one of `m` members, counted from `k`, is the one at `v`.
abbrev hits : (k m v weight : ℕ) → ℕ
hits k zero v weight = 0
hits k (suc m) v weight = (if v == k then weight else 0) + hits (k + 1) m v weight

hits_one : (k m v weight : ℕ) → hits k m v weight ≡ (if leb k v && ltb v (k + m) then weight else 0)
hits_one k zero v weight = ground arith
hits_one k (suc m) v weight = ground (arith, hits_one (k + 1) m v weight)

-- The members from `k` on share a list out from a position on.
abbrev shared : Partition → (k m n position : ℕ) → List Partition → ℕ
shared x k zero n position ps = 0
shared x k (suc m) n position ps =
    count Partition-discrete x (assigned position n k ps) + shared x (k + 1) m n position ps

shared_nil : (x : Partition) (k m n position : ℕ) → shared x k m n position [] ≡ 0
unfolding assigned count
shared_nil x k zero n position = refl
shared_nil x k (suc m) n position = omega (arith, shared_nil x (k + 1) m n position)

count_one :
    (x p : Partition) (n k position : ℕ) (ps : List Partition)
    → count Partition-discrete x (assigned position n k (p ∷ ps))
      ≡ (if position % n == k then count Partition-discrete x (p ∷ []) else 0)
        + count Partition-discrete x (assigned (position + 1) n k ps)
unfolding assigned count
count_one x p n k position ps = ground arith

shared_cons :
    (x p : Partition) (k m n position : ℕ) (ps : List Partition)
    → shared x k m n position (p ∷ ps)
      ≡ hits k m (position % n) (count Partition-discrete x (p ∷ []))
        + shared x k m n (position + 1) ps
shared_cons x p k zero n position ps = omega arith
shared_cons x p k (suc m) n position ps =
    omega (arith, count_one x p n k position ps, shared_cons x p (k + 1) m n position ps)

-- Every member shares in the same list.
shared_all :
    (x : Partition) (n position : ℕ) (ps : List Partition)
    → 0 < n
    → shared x 0 n n position ps ≡ count Partition-discrete x ps
unfolding count
shared_all x n position [] l = shared_nil x 0 n n position
shared_all x n position (p ∷ ps) l = ground (
  arith,
  shared_cons x p 0 n n position ps,
  hits_one 0 n (position % n) (count Partition-discrete x (p ∷ [])),
  shared_all x n (position + 1) ps l,
)

total-rebalance_from :
    (x : Partition) (k m n : ℕ) (ps : List Partition)
    → total (count Partition-discrete x) (rebalance_from k n (replicate m ps)) ≡ shared x k m n 0 ps
unfolding rebalance_from
total-rebalance_from x k zero n ps = refl
total-rebalance_from x k (suc m) n ps =
    ap (λ s. count Partition-discrete x (assigned 0 n k ps) + s)
      (total-rebalance_from x (k + 1) m n ps)

length-replicate : {A : Type 0} → (n : ℕ) (x : A) → length (replicate n x) ≡ n
length-replicate zero x = refl
length-replicate (suc n) x = ap suc (length-replicate n x)

-- When the members of a group, at least one, read the same topics, a rebalance assigns each
-- partition as often as the topics have it, over all members together: a partition that is there
-- once belongs to exactly one member, and one that is not there to none.
pub total-rebalance :
    (x : Partition) (members : ℕ) (ps : List Partition)
    → 0 < members
    → total (count Partition-discrete x) (rebalance (replicate members ps))
      ≡ count Partition-discrete x ps
unfolding rebalance
total-rebalance x members ps l =
    ap (λ n. total (count Partition-discrete x) (rebalance_from 0 n (replicate members ps)))
      (length-replicate members ps)
    ∙ total-rebalance_from x 0 members members ps
    ∙ shared_all x members 0 ps l
