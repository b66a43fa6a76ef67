-- ===== src/Connect.antt =====
-- scripts/dmt_db_connect.py: the retries of a connect and of a database call. One attempt, which runs in
-- a thread with a deadline, is an answer.
pub mod Attempts
mod Tests
use data_migration_tool.Prelude.{
  ℕ, zero, suc, ◌+◌, ◌-◌, ◌*◌, ◌^◌, String, Option, none, some, List, [], ◌∷◌, nat_beq,
  if◌then◌else◌,
}

-- what one attempt does: it returns, raises a database error or a timeout, or raises anything else
pub data Answer (A : Type 0) : Type 0 where
  gives : A → Answer A
  db_error other_error : String → Answer A

pub data Outcome (A : Type 0) : Type 0 where
  returned : A → Outcome A
  raised : String → Outcome A
  nothing_raised bad_call_timeout : Outcome A

-- the outcome, and the seconds slept between the attempts
abbrev pub Retried : Type 0 → Type 0
Retried A = Outcome A × List ℕ

abbrev pub slept : {A : Type 0} → ℕ → Retried A → Retried A
slept s r = (r.0, s ∷ r.1)

module _ {A : Type 0} (attempt : ℕ → Answer A) (backoff_s : ℕ) where
  -- attempt i, with so many more behind it
  unfoldable pub attempt_from : ℕ → ℕ → Retried A
  attempt_from zero i = elim (attempt i) [
    | gives a ↦ (returned a, [])
    | db_error e ↦ (raised e, [])
    | other_error e ↦ (raised e, [])
  ]
  attempt_from (suc more) i = elim (attempt i) [
    | gives a ↦ (returned a, [])
    | db_error e ↦ slept (backoff_s * 2 ^ (i - 1)) (attempt_from more (i + 1))
    | other_error e ↦ (raised e, [])
  ]

  -- with no attempt there is nothing to raise
  unfoldable pub retry_db : ℕ → Retried A
  retry_db zero = (nothing_raised, [])
  retry_db (suc more) = attempt_from more 1

  -- `none` is a call timeout that is not positive
  unfoldable pub connect_with_retry : Option ℕ → ℕ → Retried A
  connect_with_retry none attempts = (bad_call_timeout, [])
  connect_with_retry (some call_timeout_ms) attempts =
      if nat_beq call_timeout_ms 0 then (bad_call_timeout, []) else retry_db attempts
