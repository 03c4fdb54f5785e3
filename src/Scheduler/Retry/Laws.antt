-- ===== src/Scheduler/Retry/Laws.antt =====
-- What `execute_with_retry` returns, and how many calls and sleeps it makes.
use chain_sentinel.Base.{
  ℕ, zero, suc, ◌+◌, ◌-◌, ◌<◌, String, ◌≡◌, refl, ◌⊎◌, inl, inr, Option, none, some, arith, ltb,
  if◌then◌else◌, ltb,
}
use chain_sentinel.Scheduler.Retry.{
  Outcome, returned, raised, RetryPolicy, RetryResult, success, exhausted, assertion_failed,
  give_up, sleeps_after, attempts, execute_with_retry,
}

abbrev pub Raises : {A : Type 0} → Outcome A → Type 0
Raises (returned _) = ⊥
Raises (raised _) = Unit

-- What each result says of the attempts: the first that returned, or the error of the last one.
module _ {A : Type 0} (operation : ℕ → Outcome A) (limit calls : ℕ) where
  abbrev pub Explains : RetryResult A → Type 0
  Explains (success a k) =
      (operation k ≡ returned a)
      × (k < limit)
      × ((j : ℕ) → j < k → Raises (operation j))
      × (calls ≡ k + 1)
  Explains (exhausted e) =
      (operation (limit - 1) ≡ raised e)
      × (0 < limit)
      × ((j : ℕ) → j < limit → Raises (operation j))
      × (calls ≡ limit)
  Explains assertion_failed = ⊥

pub Outcome-cases :
    {A : Type 0} (o : Outcome A) → ((a : A) × (o ≡ returned a)) ⊎ ((e : String) × (o ≡ raised e))
Outcome-cases (returned a) = inl (a, refl)
Outcome-cases (raised e) = inr (e, refl)

pred_lem : (n : ℕ) → n + 1 - 1 ≡ n
pred_lem n = omega arith

-- The sleeps so far, one after each failed attempt but the last, if there is a delay.
abbrev pub Slept : RetryPolicy → ℕ → ℕ → Type 0
Slept policy calls sleeps = sleeps ≡ (if ltb 0 policy.delay_seconds then calls - 1 else 0)

module _ {A : Type 0} (operation : ℕ → Outcome A) (policy : RetryPolicy) where
  Raises-suc :
      (n : ℕ) (e : String)
      → ((j : ℕ) → j < n → Raises (operation j))
      → operation n ≡ raised e
      → (j : ℕ) → j < n + 1
      → Raises (operation j)
  Raises-suc n e before now j h = ground (arith, before j)

  module _ (left attempt sleeps : ℕ) (last : Option String) where
    attempts-returned :
        (a : A)
        → operation attempt ≡ returned a
        → attempts operation policy (suc left) attempt sleeps last
          ≡ record { result = success a attempt; calls = attempt + 1; sleeps = sleeps }
    unfolding attempts
    attempts-returned a e = rw (e, attempts)

    attempts-raised :
        (m : String)
        → operation attempt ≡ raised m
        → attempts operation policy (suc left) attempt sleeps last
          ≡ attempts operation policy left
              (attempt + 1)
              (sleeps_after policy attempt sleeps)
              (some m)
    unfolding attempts
    attempts-raised m e = rw (e, attempts)

  give_up-Explains :
      (attempt : ℕ) (last : Option String) (e : String)
      → attempt ≡ policy.max_attempts
      → 0 < policy.max_attempts
      → ((j : ℕ) → j < attempt → Raises (operation j))
      → last ≡ some e
      → operation (attempt - 1) ≡ raised e
      → Explains operation policy.max_attempts attempt (give_up last)
  give_up-Explains attempt last e done positive before found same =
      rw (found, ← done) (same, omega arith, before, refl)

  attempts-Explains :
      (left attempt sleeps : ℕ) (last : Option String)
      → attempt + left ≡ policy.max_attempts
      → 0 < policy.max_attempts
      → ((j : ℕ) → j < attempt → Raises (operation j))
      → (0 < attempt → (e : String) × (last ≡ some e) × (operation (attempt - 1) ≡ raised e))
      → Explains operation policy.max_attempts
          (attempts operation policy left attempt sleeps last).calls
          (attempts operation policy left attempt sleeps last).result
  unfolding attempts
  attempts-Explains zero attempt sleeps last total positive before kept =
      let (e, found, same) = kept (omega arith) in
      give_up-Explains attempt last e (omega arith) positive before found same
  attempts-Explains (suc left) attempt sleeps last total positive before kept =
      elim (Outcome-cases (operation attempt)) [
        | inl (a, e) ↦
            rw (attempts-returned left attempt sleeps last a e) (e, omega arith, before, refl)
        | inr (m, e) ↦ rw (attempts-raised left attempt sleeps last m e) (
            attempts-Explains left (attempt + 1) (sleeps_after policy attempt sleeps) (some m)
              (omega arith) positive (Raises-suc attempt m before e)
              (λ _. (m, refl, rw (pred_lem attempt) e)))
      ]

  attempts-Slept :
      (left attempt sleeps : ℕ) (last : Option String)
      → attempt + left ≡ policy.max_attempts
      → sleeps
        ≡ (if ltb 0 policy.delay_seconds then (if ltb 0 left then attempt else attempt - 1) else 0)
      → Slept policy
          (attempts operation policy left attempt sleeps last).calls
          (attempts operation policy left attempt sleeps last).sleeps
  unfolding attempts
  attempts-Slept zero attempt sleeps last total now = now
  attempts-Slept (suc left) attempt sleeps last total now =
      elim (Outcome-cases (operation attempt)) [
        | inl (a, e) ↦ rw (attempts-returned left attempt sleeps last a e) (ground arith)
        | inr (m, e) ↦ rw (attempts-raised left attempt sleeps last m e) (
            attempts-Slept left (attempt + 1) (sleeps_after policy attempt sleeps) (some m)
              (omega arith) (unfold sleeps_after in ground arith))
      ]

-- A valid policy: the first attempt that returns is the result, with the number of failures before
-- it; else all `max_attempts` attempts raised, and the last error is reported. The `assert` at the
-- end never fails. There are at least one and at most `max_attempts` calls, and one sleep after
-- each failed call that another follows, if the delay is positive.
pub execute_with_retry_lem :
    {A : Type 0} (operation : ℕ → Outcome A) (policy : RetryPolicy)
    → 0 < policy.max_attempts
    → Explains operation policy.max_attempts
        (execute_with_retry operation policy).calls
        (execute_with_retry operation policy).result
      × Slept policy
          (execute_with_retry operation policy).calls
          (execute_with_retry operation policy).sleeps
unfolding execute_with_retry
execute_with_retry_lem operation policy positive = (
  attempts-Explains operation policy policy.max_attempts 0 0 none (omega arith) positive
      (λ j h. absurd (omega arith)) (λ h. absurd (omega arith)),
  attempts-Slept operation policy policy.max_attempts 0 0 none (omega arith) (ground arith),
)
