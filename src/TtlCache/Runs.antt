-- ===== src/TtlCache/Runs.antt =====
-- Runs of a cached function and of its store's methods (src/decorators/cache.py).
use boilerplate_python_fasta.Prelude.{
  refl, [], ◌∷◌, none, some, List, ℕ, ◌≡◌, ◌≤◌, All, length, arith, ◌∙◌, Option,
}
use boilerplate_python_fasta.TtlCache.{
  TtlStore, invalidate, clear, call, new_store, peek, hit, miss, set_entry, store, make_room, Entry,
  respond,
}
use boilerplate_python_fasta.TtlCache.Sound.{
  IsSound, IsSound-call, IsSound-invalidate, IsSound-clear,
}

-- A call of the function, `cache_invalidate` and `cache_clear`.
pub data Op (A : Type 0) : Type 0 where
  ask : (now later : ℕ) → A → Op A
  drop_one : A → Op A
  drop_all : Op A

module _ {A K V : Type 0} (dec : Discrete K) (key_of : A → K) (func : A → V) where
  -- The arguments and the results, in order, and the store at the end.
  unfoldable pub run : List (Op A) → TtlStore K V → List (A × V) × TtlStore K V
  run [] s = ([], s)
  run (ask now later a ∷ ops) s =
      let (v, s') = call dec key_of func now later a s in
      let (vs, s'') = run ops s' in ((a, v) ∷ vs, s'')
  run (drop_one a ∷ ops) s = run ops (invalidate dec (key_of a) s).1
  run (drop_all ∷ ops) s = run ops (clear dec s)

  abbrev IsTransparent : List (A × V) × TtlStore K V → Type 0
  IsTransparent (vs, s) = All (λ (a, v). v ≡ func a) vs × IsSound dec key_of func s

  run-IsTransparent :
      ((a b : A) → key_of a ≡ key_of b → func a ≡ func b)
      → (ops : List (Op A)) (s : TtlStore K V) → IsSound dec key_of func s
      → IsTransparent (run ops s)
  unfolding run
  run-IsTransparent same [] s k = (tt, k)
  run-IsTransparent same (ask now later a ∷ ops) s k =
      let (k', e) = IsSound-call dec key_of func same now later a s k in
      let (es, k'') = run-IsTransparent same ops _ k' in ((e, es), k'')
  run-IsTransparent same (drop_one a ∷ ops) s k =
      run-IsTransparent same ops _ (IsSound-invalidate dec key_of func (key_of a) s k)
  run-IsTransparent same (drop_all ∷ ops) s k =
      run-IsTransparent same ops _ (IsSound-clear dec key_of func s k)

  maxsize-peek : (now : ℕ) (key : K) (s : TtlStore K V) → (peek dec now key s).1.maxsize ≡ s.maxsize
  unfolding peek
  maxsize-peek now key s = ground arith

  maxsize-respond :
      (later : ℕ) (a : A) (o : Option (Entry V)) (s : TtlStore K V)
      → (respond dec key_of func later a o s).1.maxsize ≡ s.maxsize
  unfolding hit miss set_entry store make_room
  maxsize-respond later a none s = ground arith
  maxsize-respond later a (some x) s = refl

  maxsize-run : (ops : List (Op A)) (s : TtlStore K V) → (run ops s).1.maxsize ≡ s.maxsize
  unfolding run call invalidate clear
  maxsize-run [] s = refl
  maxsize-run (ask now later a ∷ ops) s =
      let s' = (peek dec now (key_of a) s).1 in
      maxsize-run ops _
      ∙ (maxsize-respond later a (peek dec now (key_of a) s).0 s' ∙ maxsize-peek now (key_of a) s)
  maxsize-run (drop_one a ∷ ops) s = maxsize-run ops _
  maxsize-run (drop_all ∷ ops) s = maxsize-run ops _

  -- Where calls with the same key have the same result, and at least one entry fits, every call
  -- returns what the function returns, whatever hits, expiries, evictions and invalidations come
  -- between, and the store holds at most `maxsize` entries at the end.
  pub cached_calls_lem :
      ((a b : A) → key_of a ≡ key_of b → func a ≡ func b)
      → (maxsize ttl : ℕ) → 1 ≤ maxsize
      → (ops : List (Op A))
      → All (λ (a, v). v ≡ func a) (run ops (new_store maxsize ttl)).0
        × (length (run ops (new_store maxsize ttl)).1.entries ≤ maxsize)
  cached_calls_lem same maxsize ttl h ops =
      let (vs, k) =
        run-IsTransparent same ops (new_store maxsize ttl)
          (record { right = tt; small = omega arith; positive = h }) in
      (vs, omega (arith, k.small, maxsize-run ops (new_store maxsize ttl)))
