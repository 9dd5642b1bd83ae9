-- ===== src/Resilience/Registry/Origins.antt =====
-- The origins of a registry do not affect one another (src/resilience/circuit.py, bulkhead.py).
use boilerplate_python_fasta.Prelude.Dict
use boilerplate_python_fasta.Prelude.{
  refl, [], ◌∷◌, none, some, String, List, Option, String_discrete, ite, ◌≡◌, arith, ◌≢◌, ap,
}
use boilerplate_python_fasta.Prelude.Dict.{get-put, Dict}
use boilerplate_python_fasta.Resilience.Registry.{each, find}

-- What is done to a registry: something to the object of an origin, which `get` gives, or
-- something to every object.
pub data Use (V : Type 0) : Type 0 where
  to_one : String → (V → V) → Use V
  to_each : (V → V) → Use V

module _ {V : Type 0} (fresh : V) where
  unfoldable pub perform : Use V → Dict String V → Dict String V
  perform (to_one origin f) d =
      let (v, d') = find fresh origin d in Dict.put String_discrete origin (f v) d'
  perform (to_each f) d = each f d

  unfoldable pub run : List (Use V) → Dict String V → Dict String V
  run [] d = d
  run (u ∷ rest) d = run rest (perform u d)

  abbrev pub or_fresh : Option V → V
  or_fresh none = fresh
  or_fresh (some v) = v

  abbrev pub on_some : (V → V) → Option V → Option V
  on_some f none = none
  on_some f (some v) = some (f v)

  -- What a single origin sees of the uses, with no registry.
  abbrev pub seen_by : String → List (Use V) → Option V → Option V
  seen_by o [] x = x
  seen_by o (to_one origin f ∷ rest) x =
      seen_by o rest (ite (String_discrete origin o) (some (f (or_fresh x))) x)
  seen_by o (to_each f ∷ rest) x = seen_by o rest (on_some f x)

  get-each :
      (f : V → V) (o : String) (d : Dict String V)
      → Dict.get String_discrete o (each f d) ≡ on_some f (Dict.get String_discrete o d)
  unfolding each Dict.get
  get-each f o [] = refl
  get-each f o ((j, w) ∷ d) = ground (arith, get-each f o d)

  find_value :
      (origin : String) (d : Dict String V)
      → (find fresh origin d).0 ≡ or_fresh (Dict.get String_discrete origin d)
  unfolding find
  find_value origin d = ground arith

  found_same :
      (origin o : String) (d : Dict String V)
      → origin ≡ o
      → Dict.get String_discrete origin d ≡ Dict.get String_discrete o d
  found_same origin o d e = ap (λ k. Dict.get String_discrete k d) e

  find_other :
      (origin o : String) (d : Dict String V)
      → origin ≢ o
      → Dict.get String_discrete o (find fresh origin d).1 ≡ Dict.get String_discrete o d
  unfolding find
  find_other origin o d ne = ground (arith, get-put String_discrete origin o fresh d)

  get-to_each :
      (f : V → V) (o : String) (d : Dict String V)
      → Dict.get String_discrete o (perform (to_each f) d)
        ≡ on_some f (Dict.get String_discrete o d)
  unfolding perform
  get-to_each f o d = get-each f o d

  get-to_one :
      (o origin : String) (f : V → V) (d : Dict String V)
      → Dict.get String_discrete o (perform (to_one origin f) d)
        ≡ ite
            (String_discrete origin o)
            (some (f (or_fresh (Dict.get String_discrete o d))))
            (Dict.get String_discrete o d)
  unfolding perform
  get-to_one o origin f d = elim (String_discrete origin o) [
    | yes e ↦ ground (
      arith,
      find_value origin d,
      found_same origin o d e,
      get-put String_discrete origin o (f (find fresh origin d).0) (find fresh origin d).1,
    )
    | no ne ↦ ground (
      arith,
      find_other origin o d ne,
      get-put String_discrete origin o (f (find fresh origin d).0) (find fresh origin d).1,
    )
  ]

  -- Whatever is done to a registry, the object of an origin is what the uses of this origin and
  -- those of every object make of it, in their order; the uses of other origins do nothing to it.
  origins_apart :
      (o : String) (uses : List (Use V)) (d : Dict String V)
      → Dict.get String_discrete o (run uses d) ≡ seen_by o uses (Dict.get String_discrete o d)
  unfolding run
  origins_apart o [] d = refl
  origins_apart o (to_one origin f ∷ rest) d =
      rw (← get-to_one o origin f d) (origins_apart o rest (perform (to_one origin f) d))
  origins_apart o (to_each f ∷ rest) d =
      rw (← get-to_each f o d) (origins_apart o rest (perform (to_each f) d))
