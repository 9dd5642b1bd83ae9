-- ===== src/Streams/Delivery.antt =====
-- What a group reads: the loop of `_read_now` (src/redis_streams/memory.py) against the entries that
-- wait for the group.
use boilerplate_python_fasta.Prelude.{
  refl, [], ◌∷◌, zero, suc, map, String, ℕ, List, Bool-cases, ◌≡◌, if◌then◌else◌, take, ap, inr,
  drop, inl, ◌∙◌, leb, ◌-◌, subst, sym, false, arith,
}
use boilerplate_python_fasta.Streams.{
  StreamEntryId, is_before, read_loop, deliver, message, Group, StreamMessage, Fields, Dict,
}
use boilerplate_python_fasta.Streams.Ids.{
  Before, IsAscending, UpTo, UpTo-refl, IsAscending-from, UpTo-trans, Before-UpTo,
}
use boilerplate_python_fasta.Prelude.Dict.{Dict}

-- The entries after an id.
abbrev pub waiting : StreamEntryId → Dict StreamEntryId Fields → Dict StreamEntryId Fields
waiting last [] = []
waiting last (e ∷ rest) = let w = waiting last rest in if is_before last e.0 then e ∷ w else w

pub waiting-IsAscending :
    (last : StreamEntryId) (d : Dict StreamEntryId Fields) → IsAscending last d → waiting last d ≡ d
waiting-IsAscending last [] h = refl
waiting-IsAscending last (e ∷ d) h =
    rw h.0 (ap (λ t. e ∷ t) (waiting-IsAscending last d (IsAscending-from last e.0 d h.0 h.1)))

waiting-UpTo :
    (last : StreamEntryId) (e : StreamEntryId × Fields) (d : Dict StreamEntryId Fields)
    → UpTo e.0 last
    → waiting last (e ∷ d) ≡ waiting last d
waiting-UpTo last e d h = rw h refl

-- The three ways that a round of the loop goes.
read_skip :
    (consumer : String) (now left : ℕ) (e : StreamEntryId × Fields) (d : Dict StreamEntryId Fields)
    (g : Group)
    → UpTo e.0 g.last_delivered
    → read_loop consumer now left (e ∷ d) g ≡ read_loop consumer now left d g
unfolding read_loop
read_skip consumer now left e d g h = rw (read_loop, h) refl

read_last :
    (consumer : String) (now : ℕ) (e : StreamEntryId × Fields) (d : Dict StreamEntryId Fields)
    (g : Group)
    → Before g.last_delivered e.0
    → read_loop consumer now 1 (e ∷ d) g ≡ (message e ∷ [], deliver consumer now e.0 g)
unfolding read_loop
read_last consumer now e d g h = rw (read_loop, h) refl

predecessor : (n : ℕ) → suc (suc n) - 1 ≡ suc n
predecessor n = omega arith

more_than_one : (n : ℕ) → leb (suc (suc n)) 1 ≡ false
more_than_one n = ground arith

read_more :
    (consumer : String) (now n : ℕ) (e : StreamEntryId × Fields) (d : Dict StreamEntryId Fields)
    (g : Group)
    → Before g.last_delivered e.0
    → read_loop consumer now (suc (suc n)) (e ∷ d) g ≡ (
      message e ∷ (read_loop consumer now (suc n) d (deliver consumer now e.0 g)).0,
      (read_loop consumer now (suc n) d (deliver consumer now e.0 g)).1,
    )
unfolding read_loop
read_more consumer now n e d g h =
    rw (read_loop, h, more_than_one n)
      (ap
        (λ k. (
          message e ∷ (read_loop consumer now k d (deliver consumer now e.0 g)).0,
          (read_loop consumer now k d (deliver consumer now e.0 g)).1,
        ))
        (predecessor n))

forward_by :
    (g : Group) (r r' : List StreamMessage × Group)
    → r' ≡ r
    → UpTo g.last_delivered r.1.last_delivered
    → UpTo g.last_delivered r'.1.last_delivered
forward_by g r r' e h = subst (λ x. UpTo g.last_delivered x.1.last_delivered) (sym e) h

-- Reading only moves a group forward.
pub read_loop-UpTo :
    (consumer : String) (now n : ℕ) (d : Dict StreamEntryId Fields) (g : Group)
    → UpTo g.last_delivered (read_loop consumer now (suc n) d g).1.last_delivered
unfolding read_loop
read_loop-UpTo consumer now n [] g = UpTo-refl g.last_delivered
read_loop-UpTo consumer now n (e ∷ d) g = elim (Bool-cases (is_before g.last_delivered e.0)) [
  | inr h ↦
      forward_by g _ _ (read_skip consumer now (suc n) e d g h) (read_loop-UpTo consumer now n d g)
  | inl h ↦
      elim n
        as (λ m.
          UpTo g.last_delivered (read_loop consumer now (suc m) (e ∷ d) g).1.last_delivered) [
            | zero ↦
                forward_by g _ _ (read_last consumer now e d g h)
                  (Before-UpTo g.last_delivered e.0 h)
            | suc m ↦ forward_by g _ _ (read_more consumer now m e d g h) (
                UpTo-trans g.last_delivered e.0 _ (Before-UpTo g.last_delivered e.0 h)
                  (read_loop-UpTo consumer now m d (deliver consumer now e.0 g)))
          ]
]

-- With room for at least one message, a read takes the first of the entries that wait, and leaves
-- the others waiting.
pub record Takes (left : ℕ) (d : Dict StreamEntryId Fields) (g : Group)
    (r : List StreamMessage × Group) : Type 0 where
  pub taken : r.0 ≡ map message (take left (waiting g.last_delivered d))
  pub rest : waiting r.1.last_delivered d ≡ drop left (waiting g.last_delivered d)

by_path-Takes :
    (left : ℕ) (d : Dict StreamEntryId Fields) (g : Group) (r r' : List StreamMessage × Group)
    → r' ≡ r
    → Takes left d g r
    → Takes left d g r'
by_path-Takes left d g r r' e t = subst (Takes left d g) (sym e) t

-- An entry that is read, in front of entries that all wait.
waiting_first :
    (last : StreamEntryId) (e : StreamEntryId × Fields) (d : Dict StreamEntryId Fields)
    → Before last e.0
    → IsAscending e.0 d
    → waiting last (e ∷ d) ≡ e ∷ waiting e.0 d
waiting_first last e d h k = rw h (
    ap (λ t. e ∷ t)
      (waiting-IsAscending last d (IsAscending-from last e.0 d h k)
        ∙ sym (waiting-IsAscending e.0 d k)))

read_first :
    (consumer : String) (now n : ℕ) (e : StreamEntryId × Fields) (d : Dict StreamEntryId Fields)
    (g : Group)
    → Before g.last_delivered e.0
    → IsAscending e.0 d
    → ((m : ℕ)
        → Takes
            (suc m)
            d
            (deliver consumer now e.0 g)
            (read_loop consumer now (suc m) d (deliver consumer now e.0 g)))
    → Takes (suc n) (e ∷ d) g (read_loop consumer now (suc n) (e ∷ d) g)
read_first consumer now zero e d g k h ih =
    by_path-Takes 1 (e ∷ d) g _ _ (read_last consumer now e d g k) (record {
      taken = ap (λ w. map message (take 1 w)) (sym (waiting_first g.last_delivered e d k h));
      rest =
          waiting-UpTo e.0 e d (UpTo-refl e.0)
          ∙ ap (drop 1) (sym (waiting_first g.last_delivered e d k h));
    })
read_first consumer now (suc m) e d g k h ih =
    by_path-Takes (suc (suc m)) (e ∷ d) g _ _ (read_more consumer now m e d g k) (record {
      taken =
          ap (λ t. message e ∷ t) (ih m).taken
          ∙ ap (λ w. map message (take (suc (suc m)) w))
              (sym (waiting_first g.last_delivered e d k h));
      rest =
          waiting-UpTo _ e d (read_loop-UpTo consumer now m d (deliver consumer now e.0 g))
          ∙ (ih m).rest
          ∙ ap (drop (suc (suc m))) (sym (waiting_first g.last_delivered e d k h));
    })

pub read_loop-Takes :
    (consumer : String) (now n : ℕ) (a : StreamEntryId) (d : Dict StreamEntryId Fields) (g : Group)
    → IsAscending a d
    → Takes (suc n) d g (read_loop consumer now (suc n) d g)
unfolding read_loop
read_loop-Takes consumer now n a [] g h = record { taken = refl; rest = refl }
read_loop-Takes consumer now n a (e ∷ d) g h = elim (Bool-cases (is_before g.last_delivered e.0)) [
  | inr k ↦
      let ih = read_loop-Takes consumer now n e.0 d g h.1 in
      by_path-Takes (suc n) (e ∷ d) g _ _ (read_skip consumer now (suc n) e d g k) (record {
        taken =
            ih.taken
            ∙ ap (λ w. map message (take (suc n) w)) (sym (waiting-UpTo g.last_delivered e d k));
        rest =
            waiting-UpTo _ e d
              (UpTo-trans e.0 g.last_delivered _ k (read_loop-UpTo consumer now n d g))
            ∙ ih.rest
            ∙ ap (drop (suc n)) (sym (waiting-UpTo g.last_delivered e d k));
      })
  | inl k ↦
      read_first consumer now n e d g k h.1
        (λ m. read_loop-Takes consumer now m e.0 d (deliver consumer now e.0 g) h.1)
]

-- No id is after `last`.
abbrev pub AllUpTo : StreamEntryId → Dict StreamEntryId Fields → Type 0
AllUpTo last [] = Unit
AllUpTo last (e ∷ rest) = UpTo e.0 last × AllUpTo last rest

-- Reading moves a group no further than the entries go.
pub read_loop-AllUpTo :
    (consumer : String) (now n : ℕ) (b : StreamEntryId) (d : Dict StreamEntryId Fields) (g : Group)
    → AllUpTo b d
    → UpTo g.last_delivered b
    → UpTo (read_loop consumer now (suc n) d g).1.last_delivered b
unfolding read_loop
read_loop-AllUpTo consumer now n b [] g u h = h
read_loop-AllUpTo consumer now n b (e ∷ d) g u h =
    elim (Bool-cases (is_before g.last_delivered e.0)) [
      | inr k ↦
          subst (λ r. UpTo r.1.last_delivered b) (sym (read_skip consumer now (suc n) e d g k))
            (read_loop-AllUpTo consumer now n b d g u.1 h)
      | inl k ↦
          elim n as (λ m. UpTo (read_loop consumer now (suc m) (e ∷ d) g).1.last_delivered b) [
            | zero ↦
                subst (λ r. UpTo r.1.last_delivered b) (sym (read_last consumer now e d g k)) u.0
            | suc m ↦
                subst (λ r. UpTo r.1.last_delivered b) (sym (read_more consumer now m e d g k))
                  (read_loop-AllUpTo consumer now m b d (deliver consumer now e.0 g) u.1 u.0)
          ]
    ]
