-- ===== src/Regression/Harness/Judged.antt =====
-- What exit code 0 of the harness says of the run.
use data_migration_tool.Prelude.{
  ℕ, ◌+◌, ◌≤◌, ◌≡◌, refl, ◌⊎◌, inl, inr, true, false, Option, none, some, nat_beq, Bool-cases,
  Option-cases, take,
}
use data_migration_tool.Prelude.Text.{Text, codes}
use data_migration_tool.Regression.Baseline.{BaselineArg}
use data_migration_tool.Regression.Expect.{Checked, exits, checked}
use data_migration_tool.Regression.Known.{Result, fail, review}
use data_migration_tool.Regression.Known.Accepted.{AllKnown, conclude-AllKnown}
use data_migration_tool.Regression.Evaluate.{Db, evaluate}
use data_migration_tool.Regression.Waiting.{wait_for_run}
use data_migration_tool.Regression.Rows.{contains}
use data_migration_tool.Connect.{
  Answer, gives, db_error, other_error, Outcome, returned, raised, nothing_raised, bad_call_timeout,
  Retried, retry_db,
}
use data_migration_tool.Connect.Attempts.{
  Answer-cases, Tried, succeeded, broke, gave_up, again, retry_db-Tried,
}
use data_migration_tool.Regression.Harness.{
  World, Args, Ran, code, held, not_submitted, error, Submission, submitted, raises, no_connection,
  refusal, attempt, ended, out_of_fuel, no_error, judge, ensure_poller, wait_and_judge,
  submit_and_judge, main,
}

-- the value of a retried call is the answer of one of its attempts
Tried-gives :
    {A : Type 0} (f : ℕ → Answer A) (s last i : ℕ) (r : Retried A) (a : A)
    → Tried f s last i r
    → r.0 ≡ returned a
    → (k : ℕ) × (k ≤ last) × (f k ≡ gives a)
Tried-gives f s last i _ a (succeeded {a = b} le e) q =
    let same : b ≡ a = cc in (i, le, rw same at e)
Tried-gives f s last i _ a (broke le e) q = absurd (cc)
Tried-gives f s last i _ a (gave_up le e) q = absurd (cc)
Tried-gives f s last i _ a (again {r = r} lt e t) q = Tried-gives f s last (i + 1) r a t q

-- An evaluation of the run in at most 3 attempts, whose failures and review items are all known.
pub record Judged (w : World) (a : Args) (id : ℕ) : Type 0 where
  pub tries : ℕ
  pub in_time : tries ≤ 3
  pub db : Db
  pub result : Result
  pub reads : w.read id tries ≡ gives db
  pub judged : evaluate db id a.baseline ≡ checked result
  pub failures_known : AllKnown fail w.known_issues result result.failures
  pub review_known : AllKnown review w.known_issues result result.review

attempt-gives :
    (w : World) (id : ℕ) (arg : BaselineArg) (i : ℕ) (c : Checked Result)
    → attempt w id arg i ≡ gives c
    → (db : Db) × (w.read id i ≡ gives db) × (evaluate db id arg ≡ c)
unfolding attempt
attempt-gives w id arg i c h = elim (Answer-cases (w.read id i)) [
  | inl (db, e) ↦ let q : gives (evaluate db id arg) ≡ gives c = rw (attempt, e) at h in (db, e, cc)
  | inr (inl (x, e)) ↦ absurd (let q : db_error x ≡ gives c = rw (attempt, e) at h in cc)
  | inr (inr (x, e)) ↦ absurd (let q : other_error x ≡ gives c = rw (attempt, e) at h in cc)
]

ended-Judged :
    (w : World) (a : Args) (id : ℕ) (o : Outcome (Checked Result))
    → (retry_db (attempt w id a.baseline) 15 3).0 ≡ o
    → ended w o ≡ code 0
    → Judged w a id
unfolding ended
ended-Judged w a id (returned (checked r)) e h =
    let (k, le, g) =
      Tried-gives (attempt w id a.baseline) 15 3 1 (retry_db (attempt w id a.baseline) 15 3)
        (checked r) (retry_db-Tried (attempt w id a.baseline) 15 2) e in
    let (db, reads, eval) = attempt-gives w id a.baseline k (checked r) g in
    let (f, v) = (conclude-AllKnown w.known_issues r).0 (cc) in
    record {
      tries = k;
      in_time = le;
      db = db;
      result = r;
      reads = reads;
      judged = eval;
      failures_known = f;
      review_known = v;
    }
ended-Judged w a id (returned (exits b)) e h = absurd (cc)
ended-Judged w a id (raised x) e h = absurd (cc)
ended-Judged w a id _ e h = absurd (cc)

-- the run that is judged: the given one, or the one that was submitted
pub data RunOf (w : World) (a : Args) : ℕ → Type 0 where
  given : {id : ℕ} → a.status_only ≡ some id → RunOf w a id
  made : {id : ℕ} → w.submission ≡ submitted id → RunOf w a id

wait-Judged : (w : World) (a : Args) (id : ℕ) → (wait_and_judge w a id).1 ≡ code 0 → Judged w a id
unfolding wait_and_judge judge
wait-Judged w a id h = elim (Option-cases (wait_for_run (w.waiting id) a.timeout_min a.stall_min)) [
  | inl e ↦ absurd (let q : out_of_fuel ≡ code 0 = rw (wait_and_judge, e) at h in cc)
  | inr (f, e) ↦
      let q : (judge w a id).1 ≡ code 0 = rw (wait_and_judge, e) at h in
      ended-Judged w a id (retry_db (attempt w id a.baseline) 15 3).0 refl q
]

-- with the outcome of ENSURE_POLLER_RUNNING
poller-end : (w : World) (rest : Ran) → (ensure_poller w rest).1 ≡ code 0 → rest.1 ≡ code 0
unfolding ensure_poller
poller-end w rest h = by_outcome (retry_db w.enable 15 3).0 refl
  where
    by_outcome : (o : Outcome Unit) → (retry_db w.enable 15 3).0 ≡ o → rest.1 ≡ code 0
    by_outcome (returned u) e = rw (ensure_poller, e) at h
    by_outcome (raised x) e = absurd (let q : error x ≡ code 0 = rw (ensure_poller, e) at h in cc)
    by_outcome nothing_raised e =
        absurd (let q : no_error ≡ code 0 = rw (ensure_poller, e) at h in cc)
    by_outcome bad_call_timeout e =
        absurd (let q : no_error ≡ code 0 = rw (ensure_poller, e) at h in cc)

not_refused : (msg : Text) → refusal msg ≡ code 0 → ⊥
unfolding refusal
not_refused msg h = elim (Bool-cases (contains (codes "ORA-20105") msg)) [
  | inl e ↦ let q : held (take 300 msg) ≡ code 0 = rw (refusal, e) at h in cc
  | inr e ↦ let q : not_submitted (take 300 msg) ≡ code 0 = rw (refusal, e) at h in cc
]

submit-Judged :
    (w : World) (a : Args)
    → (submit_and_judge w a).1 ≡ code 0
    → (id : ℕ) × RunOf w a id × Judged w a id
unfolding submit_and_judge
submit-Judged w a h = by_answer w.submission refl
  where
    by_answer : (s : Submission) → w.submission ≡ s → (id : ℕ) × RunOf w a id × Judged w a id
    by_answer (no_connection x) e =
        absurd (let q : error x ≡ code 0 = rw (submit_and_judge, e) at h in cc)
    by_answer (raises msg) e = absurd (not_refused msg (rw (submit_and_judge, e) at h))
    by_answer (submitted id) e =
        let q : (ensure_poller w (wait_and_judge w a id)).1 ≡ code 0 =
          rw (submit_and_judge, e) at h in
        (id, made e, wait-Judged w a id (poller-end w (wait_and_judge w a id) q))

-- Exit code 0 of the harness: only --rest-only was asked for, or the run that was given or that
-- SUBMIT_PIPELINE answered with was evaluated, and each failure and review item of it is known.
pub main-Judged :
    (w : World) (a : Args)
    → (main w a).1 ≡ code 0
    → (a.rest_only ≡ true) ⊎ ((id : ℕ) × RunOf w a id × Judged w a id)
unfolding main judge
main-Judged w a h = elim (Bool-cases a.rest_only) [
  | inl r ↦ inl r
  | inr r ↦ inr (by_id a.status_only r refl)
]
  where
    by_id :
        (o : Option ℕ)
        → a.rest_only ≡ false
        → a.status_only ≡ o
        → (id : ℕ) × RunOf w a id × Judged w a id
    by_id none r e = submit-Judged w a (rw (main, r, e) at h)
    by_id (some id) r e = elim (Bool-cases (nat_beq id 0)) [
      | inl z ↦
          let q : (submit_and_judge w a).1 ≡ code 0 = rw (main, r, e, z) at h in submit-Judged w a q
      | inr z ↦
          let q : (judge w a id).1 ≡ code 0 = rw (main, r, e, z) at h in
          (id, given e, ended-Judged w a id (retry_db (attempt w id a.baseline) 15 3).0 refl q)
    ]
