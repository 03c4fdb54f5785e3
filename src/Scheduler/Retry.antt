-- ===== src/Scheduler/Retry.antt =====
-- protocol_scheduler/retry.py. An operation is given by what its n-th call does, so that a later
-- attempt may succeed where an earlier one raised.
pub mod Laws
use chain_sentinel.Base.{
  ℕ, zero, suc, ◌+◌, String, ◌&&◌, Option, none, some, ltb, if◌then◌else◌, Result, ok, err, ltb,
}

pub data Outcome {ℓ} (A : Type ℓ) : Type ℓ where
  returned : A → Outcome A
  raised : String → Outcome A

-- A delay is in ticks.
pub record RetryPolicy : Type 0 where
  pub max_attempts : ℕ
  pub delay_seconds : ℕ

pub data ValueError : Type 0 where
  value_error : ValueError

-- The constructor with its `__post_init__`.
unfoldable pub retry_policy : ℕ → ℕ → Result ValueError RetryPolicy
retry_policy max_attempts delay_seconds =
    if ltb max_attempts 1
    then err value_error
    else ok (record { max_attempts = max_attempts; delay_seconds = delay_seconds })

pub data RetryResult {ℓ} (A : Type ℓ) : Type ℓ where
  success : A → (retry_count : ℕ) → RetryResult A
  exhausted : String → RetryResult A
  assertion_failed : RetryResult A

-- The result, with the number of calls and of sleeps that led to it.
pub record RetryRun {ℓ} (A : Type ℓ) : Type ℓ where
  pub result : RetryResult A
  pub calls : ℕ
  pub sleeps : ℕ

abbrev pub give_up {ℓ} : {A : Type ℓ} → Option String → RetryResult A
give_up none = assertion_failed
give_up (some e) = exhausted e

sleeps_after : RetryPolicy → ℕ → ℕ → ℕ
sleeps_after policy attempt sleeps =
    if ltb (attempt + 1) policy.max_attempts && ltb 0 policy.delay_seconds
    then sleeps + 1
    else sleeps

module _ {ℓ} {A : Type ℓ} (operation : ℕ → Outcome A) (policy : RetryPolicy) where
  -- The `for` loop, with the attempts left, from attempt number `attempt` on.
  attempts : ℕ → ℕ → ℕ → Option String → RetryRun A
  unfolding sleeps_after
  attempts zero attempt sleeps last_error = record {
    result = give_up last_error;
    calls = attempt;
    sleeps = sleeps;
  }
  attempts (suc left) attempt sleeps last_error = elim (operation attempt) [
    | returned a ↦ record { result = success a attempt; calls = attempt + 1; sleeps = sleeps }
    | raised e ↦ attempts left (attempt + 1) (sleeps_after policy attempt sleeps) (some e)
  ]

  unfoldable pub execute_with_retry : RetryRun A
  unfolding attempts
  execute_with_retry = attempts policy.max_attempts 0 0 none
