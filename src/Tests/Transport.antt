-- ===== src/Tests/Transport.antt =====
-- Runs of the retry loop of src/resilience/transport.py.
use boilerplate_python_fasta.Prelude.{
  refl, [], ◌∷◌, none, some, zero, suc, true, false, arith, ℕ, min, All, ◌≡◌, ◌≤◌, ◌+◌,
}
use boilerplate_python_fasta.Resilience.Circuit.System.{
  start, start-IsSound, take, answer, abandon, look,
}
use boilerplate_python_fasta.Resilience.Circuit.System.{
  start, start-IsSound, take, answer, abandon, look,
}
use boilerplate_python_fasta.Prelude.Text.{codes}
use boilerplate_python_fasta.Resilience.Policy.{
  connect_error, check_retry_policy, RetryPolicy, Request, seconds,
}
use boilerplate_python_fasta.Resilience.Transport.{
  Exchange, response, transport_error, handle_async_request, Outcome, other_error,
}
use boilerplate_python_fasta.Resilience.Transport.Retries.{
  handle_async_request-IsHandled, IsHandled,
}
use boilerplate_python_fasta.Resilience.Transport.Delays.{sleeps_bounded, longest}
use boilerplate_python_fasta.Tests.Circuit.{policy, policy-IsUsable}

abbrev retries : RetryPolicy
retries = record {
  attempts = 3;
  base_delay = 1;
  max_delay = 8;
  jitter = true;
  idempotency_key_headers = "Idempotency-Key" ∷ [];
  respect_retry_after = true;
  max_retry_after = 20;
}

abbrev posting : Request
posting = record { method = codes "POST"; has_header = λ name. false; sync_stream = true }

-- No connection, then a server error that names a wait, then an exception of another kind.
abbrev answer_of : ℕ → Outcome
answer_of zero = response (record { status = 200; retry_after = none })
answer_of (suc zero) = transport_error connect_error
answer_of (suc (suc zero)) = response (record { status = 503; retry_after = some (seconds 2) })
answer_of (suc (suc (suc n))) = other_error

abbrev script : ℕ → Exchange
script k = record {
  acquired_at = k;
  refused_at = k;
  settled_at = k;
  outcome = answer_of k;
  wall_clock = 100 + k;
  remaining = some 50;
  uniform = λ c. min c 1;
  while_sending = take k k ∷ answer 0 k true ∷ [];
  while_waiting = abandon 0 ∷ look k ∷ [];
}

retries_checked : check_retry_policy retries ≡ none
unfolding check_retry_policy
retries_checked = refl

handle_async_request-IsHandled_example :
    IsHandled retries posting (handle_async_request retries posting script (start policy))
handle_async_request-IsHandled_example =
    handle_async_request-IsHandled retries posting script (start policy) retries_checked
      (start-IsSound policy policy-IsUsable)

sleeps_bounded_example :
    All
      (λ d. d ≤ longest retries)
      (handle_async_request retries posting script (start policy)).trace.sleeps
sleeps_bounded_example =
    sleeps_bounded retries posting script (start policy)
      (λ k. record { in_range = λ c. omega arith })
