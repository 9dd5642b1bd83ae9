-- ===== src/TtlCache/Sound.antt =====
-- What a cached function returns and what its store keeps (src/decorators/cache.py).
use boilerplate_python_fasta.Prelude.Dict
use boilerplate_python_fasta.Prelude.{
  refl, [], ◌∷◌, none, some, ◌≡◌, ℕ, All, List, Option, Bool-cases, arith, length, sym, ◌≤◌, leb,
  ◌<◌, inl, ◌+◌, length-append, inr, ap,
}
use boilerplate_python_fasta.TtlCache.{
  Entry, TtlStore, peek, hit, miss, set_entry, store, make_room, move_to_end, call, pop_first,
  respond, clear, invalidate,
}
use boilerplate_python_fasta.Prelude.Dict.{Dict}
use boilerplate_python_fasta.TtlCache.Entries.{
  All-remove, All-get, All-append, length-remove, length-remove_found, All-pop_first, remove-put,
  All-put,
}

module _ {A K V : Type 0} (dec : Discrete K) (key_of : A → K) (func : A → V) where
  -- The entry holds what the function returns for every argument with its key.
  abbrev pub IsRight : K × Entry V → Type 0
  IsRight (k, e) = (a : A) → key_of a ≡ k → e.value ≡ func a

  pub record IsSound (s : TtlStore K V) : Type 0 where
    pub right : All IsRight s.entries
    pub small : length s.entries ≤ s.maxsize
    pub positive : 1 ≤ s.maxsize

  moved_small :
      (key : K) (e : Entry V) (d : Dict K (Entry V)) (n : ℕ)
      → length (Dict.remove dec key d) < n
      → length (move_to_end dec key e d) ≤ n
  unfolding move_to_end
  moved_small key e d n h = omega (arith, h, length-append (Dict.remove dec key d) ((key, e) ∷ []))

  moved-IsRight :
      (key : K) (e : Entry V) (d : Dict K (Entry V))
      → All IsRight d
      → IsRight (key, e)
      → All IsRight (move_to_end dec key e d)
  unfolding move_to_end
  moved-IsRight key e d h r = All-append dec IsRight _ _ (All-remove dec IsRight key d h) (r, tt)

  peek_found :
      (now : ℕ) (key : K) (s : TtlStore K V) (o : Option (Entry V))
      → Dict.get dec key s.entries ≡ o
      → IsSound s
      → IsSound (peek dec now key s).1
  unfolding peek
  peek_found now key s none e k = rw (peek, e) k
  peek_found now key s (some x) e k = elim (Bool-cases (leb x.expires_at now)) [
    | inl t ↦
        rw (peek, e, t)
          (record {
            right = All-remove dec IsRight key s.entries k.right;
            small = omega (arith, k.small, length-remove dec key s.entries);
            positive = k.positive;
          })
    | inr t ↦
        rw (peek, e, t)
          (record {
            right =
                moved-IsRight key x s.entries k.right
                  (All-get dec IsRight key x s.entries k.right e);
            small =
                moved_small key x s.entries s.maxsize
                  (omega (arith, k.small, length-remove_found dec key x s.entries e));
            positive = k.positive;
          })
  ]

  IsSound-peek : (now : ℕ) (key : K) (s : TtlStore K V) → IsSound s → IsSound (peek dec now key s).1
  IsSound-peek now key s k = peek_found now key s (Dict.get dec key s.entries) refl k

  popped_small :
      {X : Type 0} → (xs : List X) (n : ℕ) → length xs ≤ n → 1 ≤ n → length (pop_first xs) < n
  popped_small [] n h p = omega arith
  popped_small (x ∷ xs) n h p = omega arith

  roomy :
      (key : K) (s : TtlStore K V) (o : Option (Entry V))
      → Dict.get dec key s.entries ≡ o
      → IsSound s
      → IsSound (make_room dec key s)
        × (length (Dict.remove dec key (make_room dec key s).entries)
            < (make_room dec key s).maxsize)
  unfolding make_room
  roomy key s (some x) e k =
      rw e (k, omega (arith, k.small, length-remove_found dec key x s.entries e))
  roomy key s none e k = elim (Bool-cases (leb s.maxsize (length s.entries))) [
    | inl t ↦
        rw (e, t)
          (
            record {
              right = All-pop_first dec IsRight s.entries k.right;
              small = omega (arith, popped_small s.entries s.maxsize k.small k.positive);
              positive = k.positive;
            },
            omega (
              arith,
              popped_small s.entries s.maxsize k.small k.positive,
              length-remove dec key (pop_first s.entries),
            ),
          )
    | inr t ↦ rw (e, t) (k, ground (arith, length-remove dec key s.entries))
  ]

  IsSound-store :
      (now : ℕ) (key : K) (value : V) (s : TtlStore K V)
      → ((a : A) → key_of a ≡ key → value ≡ func a)
      → length (Dict.remove dec key s.entries) < s.maxsize
      → IsSound s
      → IsSound (store dec now key value s)
  unfolding store
  IsSound-store now key value s r l k =
      let e : Entry V = record { value = value; expires_at = now + s.ttl } in
      let back = remove-put dec key e s.entries in
      record {
        right = moved-IsRight key e _ (All-put dec IsRight key e s.entries k.right r) r;
        small = moved_small key e _ s.maxsize (omega (arith, l, ap length back));
        positive = k.positive;
      }

  IsSound-set_entry :
      (now : ℕ) (key : K) (value : V) (s : TtlStore K V)
      → ((a : A) → key_of a ≡ key → value ≡ func a)
      → IsSound s
      → IsSound (set_entry dec now key value s)
  unfolding set_entry
  IsSound-set_entry now key value s r k =
      let (m, l) = roomy key s (Dict.get dec key s.entries) refl k in
      IsSound-store now key value (make_room dec key s) r l m

  peek_value :
      (now : ℕ) (key : K) (s : TtlStore K V) (o : Option (Entry V))
      → Dict.get dec key s.entries ≡ o
      → (x : Entry V) → (peek dec now key s).0 ≡ some x
      → o ≡ some x
  unfolding peek
  peek_value now key s none e x h = ground arith
  peek_value now key s (some y) e x h = ground arith

  respond-IsSound :
      (later : ℕ) (a : A) (o : Option (Entry V)) (s : TtlStore K V)
      → ((a b : A) → key_of a ≡ key_of b → func a ≡ func b)
      → ((x : Entry V) → o ≡ some x → IsRight (key_of a, x))
      → IsSound s
      → IsSound (respond dec key_of func later a o s).1
        × ((respond dec key_of func later a o s).0 ≡ func a)
  unfolding hit miss
  respond-IsSound later a none s same r k = (
    IsSound-set_entry later (key_of a) (func a) (miss dec s) (λ b e. same a b (sym e))
        (record { right = k.right; small = k.small; positive = k.positive }),
    refl,
  )
  respond-IsSound later a (some x) s same r k =
      (record { right = k.right; small = k.small; positive = k.positive }, r x refl a refl)

  pub IsSound-call :
      ((a b : A) → key_of a ≡ key_of b → func a ≡ func b)
      → (now later : ℕ) (a : A) (s : TtlStore K V) → IsSound s
      → IsSound (call dec key_of func now later a s).1
        × ((call dec key_of func now later a s).0 ≡ func a)
  unfolding call
  IsSound-call same now later a s k =
      respond-IsSound later a _ _ same
        (λ x h.
          All-get dec IsRight (key_of a) x s.entries k.right
            (peek_value now (key_of a) s _ refl x h))
        (IsSound-peek now (key_of a) s k)

  pub IsSound-invalidate :
      (key : K) (s : TtlStore K V) → IsSound s → IsSound (invalidate dec key s).1
  unfolding invalidate
  IsSound-invalidate key s k = record {
    right = All-remove dec IsRight key s.entries k.right;
    small = omega (arith, k.small, length-remove dec key s.entries);
    positive = k.positive;
  }

  pub IsSound-clear : (s : TtlStore K V) → IsSound s → IsSound (clear dec s)
  unfolding clear
  IsSound-clear s k = record { right = tt; small = omega (arith, k.small); positive = k.positive }
