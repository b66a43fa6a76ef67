-- ===== src/Connect/Attempts.antt =====
-- How the attempts end, and how long they wait.
use data_migration_tool.Prelude.{
  ℕ, zero, suc, ◌+◌, ◌-◌, ◌*◌, ◌^◌, ◌≤◌, ◌<◌, String, ◌≡◌, refl, ◌⊎◌, inl, inr, [], arith,
}
use data_migration_tool.Connect.{
  Answer, gives, db_error, other_error, returned, raised, Retried, slept, attempt_from, retry_db,
}

-- From attempt i, with the last one after it: the first attempt that does not fail with a database error
-- decides, and so does the last one; the waits double from one attempt to the next.
pub data Tried {A : Type 0} (attempt : ℕ → Answer A) (backoff_s last : ℕ)
    : ℕ → Retried A → Type 0 where
  succeeded :
      {i : ℕ} {a : A}
      → i ≤ last
      → attempt i ≡ gives a
      → Tried attempt backoff_s last i (returned a, [])
  broke :
      {i : ℕ} {e : String}
      → i ≤ last
      → attempt i ≡ other_error e
      → Tried attempt backoff_s last i (raised e, [])
  gave_up :
      {i : ℕ} {e : String}
      → i ≡ last
      → attempt i ≡ db_error e
      → Tried attempt backoff_s last i (raised e, [])
  again :
      {i : ℕ} {e : String} {r : Retried A}
      → i < last
      → attempt i ≡ db_error e
      → Tried attempt backoff_s last (i + 1) r
      → Tried attempt backoff_s last i (slept (backoff_s * 2 ^ (i - 1)) r)

pub Answer-cases :
    {A : Type 0} (x : Answer A)
    → ((a : A) × (x ≡ gives a))
      ⊎ (((e : String) × (x ≡ db_error e)) ⊎ ((e : String) × (x ≡ other_error e)))
Answer-cases (gives a) = inl (a, refl)
Answer-cases (db_error e) = inr (inl (e, refl))
Answer-cases (other_error e) = inr (inr (e, refl))

module _ {A : Type 0} (attempt : ℕ → Answer A) (backoff_s : ℕ) where
  attempt_from-Tried :
      (more i : ℕ) → Tried attempt backoff_s (i + more) i (attempt_from attempt backoff_s more i)
  unfolding attempt_from
  attempt_from-Tried zero i = elim (Answer-cases (attempt i)) [
    | inl (a, e) ↦ rw (e, attempt_from) (succeeded (omega arith) e)
    | inr (inl (x, e)) ↦ rw (e, attempt_from) (gave_up (omega arith) e)
    | inr (inr (x, e)) ↦ rw (e, attempt_from) (broke (omega arith) e)
  ]
  attempt_from-Tried (suc more) i = elim (Answer-cases (attempt i)) [
    | inl (a, e) ↦ rw (e, attempt_from) (succeeded (omega arith) e)
    | inr (inl (x, e)) ↦
        let count : i + 1 + more ≡ i + suc more = omega arith in
        rw (e, attempt_from) (again (omega arith) e (rw count at (attempt_from-Tried more (i + 1))))
    | inr (inr (x, e)) ↦ rw (e, attempt_from) (broke (omega arith) e)
  ]

  -- With at least one attempt, the call ends with the first answer that is no database error or with the
  -- last attempt's error, after at most that many attempts, and waits the backoff, twice it, and so on.
  pub retry_db-Tried :
      (more : ℕ) → Tried attempt backoff_s (1 + more) 1 (retry_db attempt backoff_s (suc more))
  unfolding retry_db
  retry_db-Tried more = attempt_from-Tried more 1
