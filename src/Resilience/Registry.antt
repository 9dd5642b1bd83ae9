-- ===== src/Resilience/Registry.antt =====
-- The registries of src/resilience: CircuitBreakerRegistry of circuit.py and BulkheadRegistry of
-- bulkhead.py, each one object per origin, created when it is first asked for. What a caller does
-- with the object that it got, it does to the one in the registry.
pub mod Origins
use boilerplate_python_fasta.Prelude.Dict
use boilerplate_python_fasta.Prelude.{
  refl, [], ◌∷◌, none, some, zero, suc, map, String, List, ℕ, String_discrete, length,
}
use boilerplate_python_fasta.Resilience.Circuit
use boilerplate_python_fasta.Resilience.Bulkhead
use boilerplate_python_fasta.Prelude.Dict.{Dict}
use boilerplate_python_fasta.Resilience.Bulkhead.{Bulkhead}
use boilerplate_python_fasta.Resilience.Config.{CircuitBreakerConfig, BulkheadConfig, CircuitState}
use boilerplate_python_fasta.Resilience.Circuit.{CircuitBreaker, read_state}

-- `for object in values()`, and what it does to each.
unfoldable pub each : {V : Type 0} → (V → V) → Dict String V → Dict String V
each f d = map (λ (origin, v). (origin, f v)) d

-- `get`: the object of an origin, which is `fresh` where there is none yet.
unfoldable pub find : {V : Type 0} → (fresh : V) → String → Dict String V → V × Dict String V
find fresh origin d = elim (Dict.get String_discrete origin d) [
  | none ↦ (fresh, Dict.put String_discrete origin fresh d)
  | some v ↦ (v, d)
]

pub record CircuitBreakerRegistry : Type 0 where
  pub config : CircuitBreakerConfig
  pub breakers : Dict String CircuitBreaker

unfoldable pub breaker_for :
    String → CircuitBreakerRegistry → CircuitBreaker × CircuitBreakerRegistry
breaker_for origin r =
    let (b, d) = find (Circuit.init r.config) origin r.breakers in (b, record r { breakers = d })

-- `states`: to read a state may move a breaker to half-open. All are read at one time.
unfoldable pub states :
    (now : ℕ) → CircuitBreakerRegistry → List (String × CircuitState) × CircuitBreakerRegistry
states now r = (
  map (λ (origin, b). (origin, (read_state now b).0)) r.breakers,
  record r { breakers = each (λ b. (read_state now b).1) r.breakers },
)

unfoldable pub reset_breakers : CircuitBreakerRegistry → CircuitBreakerRegistry
reset_breakers r = record r { breakers = each Circuit.reset r.breakers }

pub record BulkheadStats : Type 0 where
  pub limit : ℕ
  pub in_flight : ℕ
  pub queued : ℕ
  pub rejected : ℕ

-- `Bulkhead.stats`; the origin stands beside it.
unfoldable pub stats : Bulkhead → BulkheadStats
stats b = record {
  limit = b.config.limit;
  in_flight = b.in_flight;
  queued = length b.waiters;
  rejected = b.rejected;
}

pub record BulkheadRegistry : Type 0 where
  pub config : BulkheadConfig
  pub bulkheads : Dict String Bulkhead

unfoldable pub bulkhead_for : String → BulkheadRegistry → Bulkhead × BulkheadRegistry
bulkhead_for origin r =
    let (b, d) = find (Bulkhead.init r.config) origin r.bulkheads in (b, record r { bulkheads = d })

unfoldable pub all_stats : BulkheadRegistry → List (String × BulkheadStats)
all_stats r = map (λ (origin, b). (origin, stats b)) r.bulkheads

unfoldable pub reset_bulkheads : BulkheadRegistry → BulkheadRegistry
reset_bulkheads r = record r { bulkheads = each Bulkhead.reset r.bulkheads }
