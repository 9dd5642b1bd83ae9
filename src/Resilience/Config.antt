-- ===== src/Resilience/Config.antt =====
-- The policies of src/resilience/base.py and their checks at construction. A duration is a number
-- of clock ticks, so the checks for a negative one have no counterpart.
use boilerplate_python_fasta.Prelude.{
  ℕ, ◌≤◌, ◌≡◌, Option, none, some, arith, ltb, leb, if◌then◌else◌,
}

pub data CircuitState : Type 0 where
  closed open_state half_open : CircuitState

pub record CircuitBreakerConfig : Type 0 where
  pub failure_threshold : ℕ
  pub window_size : ℕ
  pub reset_timeout : ℕ
  pub success_threshold : ℕ
  pub half_open_max_calls : ℕ

-- The `ValueError` that `__post_init__` raises, by the field whose check fails first.
pub data ConfigError : Type 0 where
  bad_failure_threshold bad_window_size bad_reset_timeout bad_success_threshold : ConfigError
  bad_half_open_max_calls bad_limit bad_execution_timeout bad_attempts bad_max_delay : ConfigError

-- `CircuitBreakerConfig.__post_init__`; `none` means that it returns.
unfoldable pub check_circuit_config : CircuitBreakerConfig → Option ConfigError
check_circuit_config c =
    if ltb c.failure_threshold 1
    then some bad_failure_threshold
    else if ltb c.window_size c.failure_threshold
    then some bad_window_size
    else if leb c.reset_timeout 0
    then some bad_reset_timeout
    else if ltb c.success_threshold 1
    then some bad_success_threshold
    else if ltb c.half_open_max_calls 1
    then some bad_half_open_max_calls
    else none

-- What a policy that was constructed satisfies.
pub record IsUsable (c : CircuitBreakerConfig) : Type 0 where
  pub failures : 1 ≤ c.failure_threshold
  pub window : c.failure_threshold ≤ c.window_size
  pub timeout : 1 ≤ c.reset_timeout
  pub successes : 1 ≤ c.success_threshold
  pub probes : 1 ≤ c.half_open_max_calls

-- A policy passes the checks of its construction exactly if it is usable.
pub check_circuit_config-none :
    (c : CircuitBreakerConfig)
    → ((check_circuit_config c ≡ none) → IsUsable c) × (IsUsable c → check_circuit_config c ≡ none)
unfolding check_circuit_config
check_circuit_config-none c = (λ h. ground arith, λ u. ground arith)

pub record BulkheadConfig : Type 0 where
  pub limit : ℕ
  pub max_queue : ℕ
  pub acquire_timeout : ℕ
  pub execution_timeout : Option ℕ

unfoldable pub check_bulkhead_config : BulkheadConfig → Option ConfigError
check_bulkhead_config c = if ltb c.limit 1 then some bad_limit else elim c.execution_timeout [
  | none ↦ none
  | some t ↦ if leb t 0 then some bad_execution_timeout else none
]
