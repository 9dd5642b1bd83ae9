-- ===== src/TtlCache/Counters.antt =====
-- The counters of a cached function (src/decorators/cache.py).
use boilerplate_python_fasta.Prelude.{
  refl, [], ◌∷◌, none, some, suc, List, ℕ, Option, ◌+◌, ◌≡◌, arith, ◌∙◌, ap,
}
use boilerplate_python_fasta.TtlCache.{
  TtlStore, invalidate, clear, call, new_store, info, peek, respond, hit, miss, set_entry, store,
  make_room, Entry,
}
use boilerplate_python_fasta.TtlCache.Runs.{Op, ask, drop_one, drop_all, run}

-- The calls of the function since `cache_clear`, after `n` before.
abbrev pub asked : {A : Type 0} → ℕ → List (Op A) → ℕ
asked n [] = n
asked n (ask now later a ∷ ops) = asked (suc n) ops
asked n (drop_one a ∷ ops) = asked n ops
asked n (drop_all ∷ ops) = asked 0 ops

abbrev lookups : {K V : Type 0} → TtlStore K V → ℕ
lookups s = s.hits + s.misses

module _ {A K V : Type 0} (dec : Discrete K) (key_of : A → K) (func : A → V) where
  lookups-peek : (now : ℕ) (key : K) (s : TtlStore K V) → lookups (peek dec now key s).1 ≡ lookups s
  unfolding peek
  lookups-peek now key s = ground arith

  lookups-set_entry :
      (now : ℕ) (key : K) (value : V) (s : TtlStore K V)
      → lookups (set_entry dec now key value s) ≡ lookups s
  unfolding set_entry store make_room
  lookups-set_entry now key value s = ground arith

  lookups-respond :
      (later : ℕ) (a : A) (o : Option (Entry V)) (s : TtlStore K V)
      → lookups (respond dec key_of func later a o s).1 ≡ suc (lookups s)
  unfolding hit miss
  lookups-respond later a none s =
      omega (arith, lookups-set_entry later (key_of a) (func a) (miss dec s))
  lookups-respond later a (some x) s = omega arith

  lookups-call :
      (now later : ℕ) (a : A) (s : TtlStore K V)
      → lookups (call dec key_of func now later a s).1 ≡ suc (lookups s)
  unfolding call
  lookups-call now later a s = omega (
    arith,
    lookups-respond later a (peek dec now (key_of a) s).0 (peek dec now (key_of a) s).1,
    lookups-peek now (key_of a) s,
  )

  lookups-run :
      (ops : List (Op A)) (s : TtlStore K V)
      → lookups (run dec key_of func ops s).1 ≡ asked (lookups s) ops
  unfolding run invalidate clear
  lookups-run [] s = refl
  lookups-run (ask now later a ∷ ops) s =
      lookups-run ops _ ∙ ap (λ n. asked n ops) (lookups-call now later a s)
  lookups-run (drop_one a ∷ ops) s = lookups-run ops _
  lookups-run (drop_all ∷ ops) s = lookups-run ops _

  -- Every call of the function since the last `cache_clear` is counted once, as a hit or as a miss.
  counters_lem :
      (maxsize ttl : ℕ) (ops : List (Op A))
      → (info (run dec key_of func ops (new_store maxsize ttl)).1).hits
          + (info (run dec key_of func ops (new_store maxsize ttl)).1).misses
        ≡ asked 0 ops
  unfolding info
  counters_lem maxsize ttl ops = lookups-run ops (new_store maxsize ttl)
