-- ===== src/TtlCache/Entries.antt =====
-- Entries of an ordered dict as src/decorators/cache.py uses it.
use boilerplate_python_fasta.Prelude.Dict
use boilerplate_python_fasta.Prelude.{
  [], ◌∷◌, some, Option, ◌≡◌, length, All, ◌++◌, arith, ◌<◌, ◌≤◌, ite, subst,
}
use boilerplate_python_fasta.TtlCache.{pop_first}
use boilerplate_python_fasta.Prelude.Dict.{Dict}

module _ {K : Type 0} {V : Type 0} (dec : Discrete K) where
  module _ (P : K × V → Type 0) where
    All-ite :
        {X : Type 0} → (c : Dec X) (xs ys : Dict K V) → All P xs → All P ys → All P (ite c xs ys)
    All-ite (yes x) xs ys h k = h
    All-ite (no n) xs ys h k = k

    picked :
        (j k : K) (w v : V) (o : Option V) (c : Dec (j ≡ k))
        → ite c (some w) o ≡ some v
        → P (j, w)
        → (o ≡ some v → P (k, v))
        → P (k, v)
    picked j k w v o (yes p) e h f = subst P (cc) h
    picked j k w v o (no n) e h f = f e

    pub All-remove : (k : K) (d : Dict K V) → All P d → All P (Dict.remove dec k d)
    unfolding Dict.remove
    All-remove k [] h = tt
    All-remove k ((j, w) ∷ d) h =
        All-ite (dec j k) _ _ (All-remove k d h.1) (h.0, All-remove k d h.1)

    pub All-put : (k : K) (v : V) (d : Dict K V) → All P d → P (k, v) → All P (Dict.put dec k v d)
    unfolding Dict.put
    All-put k v [] h p = (p, tt)
    All-put k v ((j, w) ∷ d) h p = All-ite (dec j k) _ _ (p, h.1) (h.0, All-put k v d h.1 p)

    pub All-append : (xs ys : Dict K V) → All P xs → All P ys → All P (xs ++ ys)
    All-append [] ys h k = k
    All-append (x ∷ xs) ys h k = (h.0, All-append xs ys h.1 k)

    pub All-pop_first : (xs : Dict K V) → All P xs → All P (pop_first xs)
    All-pop_first [] h = tt
    All-pop_first (x ∷ xs) h = h.1

    pub All-get : (k : K) (v : V) (d : Dict K V) → All P d → Dict.get dec k d ≡ some v → P (k, v)
    unfolding Dict.get
    All-get k v [] h e = cc
    All-get k v ((j, w) ∷ d) h e =
        picked j k w v (Dict.get dec k d) (dec j k) e h.0 (All-get k v d h.1)

  pub remove-put :
      (k : K) (v : V) (d : Dict K V) → Dict.remove dec k (Dict.put dec k v d) ≡ Dict.remove dec k d
  unfolding Dict.remove Dict.put
  remove-put k v [] = ground arith
  remove-put k v ((j, w) ∷ d) = ground (arith, remove-put k v d)

  pub length-remove : (k : K) (d : Dict K V) → length (Dict.remove dec k d) ≤ length d
  unfolding Dict.remove
  length-remove k [] = omega arith
  length-remove k ((j, w) ∷ d) = ground (arith, length-remove k d)

  pub length-remove_found :
      (k : K) (v : V) (d : Dict K V)
      → Dict.get dec k d ≡ some v
      → length (Dict.remove dec k d) < length d
  unfolding Dict.get Dict.remove
  length-remove_found k v [] e = cc
  length-remove_found k v ((j, w) ∷ d) e =
      ground (arith, length-remove k d, length-remove_found k v d)
