-- ===== src/Regression/Harness.antt =====
-- scripts/dmt_regression_run.py: `submit_run`, `ensure_poller` and `main`. What the database answers
-- is the record World; the run is the list of what was done to the database, and how it ends.
pub mod Judged
mod Tests
use data_migration_tool.Prelude.{
  ℕ, zero, suc, ◌+◌, ◌-◌, ◌*◌, ◌/◌, ◌%◌, ◌^◌, ◌≤◌, ◌<◌, max, min, String, ◌≡◌, refl, sym, ap, ◌∙◌,
  ◌≢◌, ◌↔◌, ◌⊎◌, inl, inr, Bool, true, false, not, ◌&&◌, ◌||◌, Option, none, some, List, [], ◌∷◌,
  ◌++◌, map, arith, ◌==◌, starts_with, eq_iff, eq_refl, ltb, leb, nat_beq, if◌then◌else◌, ltb→lt,
  lt→ltb, leb→le, Bool-cases, Option-cases, &&-true, length, take, is_empty, any, all, keep, All,
  length-append, keep-append, any-append, is_empty-keep-not, add-one,
}
use data_migration_tool.Prelude.Text.{Text, codes}
use data_migration_tool.Regression.Baseline.{BaselineArg}
use data_migration_tool.Regression.Expect.{Checked, exits, checked}
use data_migration_tool.Regression.Known.{Entry, Result, conclude}
use data_migration_tool.Regression.Evaluate.{Db, evaluate}
use data_migration_tool.Regression.Waiting.{wait_for_run}
use data_migration_tool.Regression.Rows.{contains}
use data_migration_tool.Connect.{
  Answer, gives, db_error, other_error, Outcome, returned, raised, retry_db,
}
use data_migration_tool.Regression.Waiting
use data_migration_tool.Regression.Expect

-- SUBMIT_PIPELINE, with the connect in front of it; an error by its text with single spaces
pub data Submission : Type 0 where
  no_connection : String → Submission
  raises : Text → Submission
  submitted : ℕ → Submission

-- The answers of the database, those of a retried call by its attempts. `enable` is
-- ENSURE_POLLER_RUNNING; `read` has what the queries of an evaluation return; `spot_check` is the
-- error of --rest-only, if there is one.
pub record World : Type 0 where
  pub submission : Submission
  pub enable : ℕ → Answer Unit
  pub waiting : ℕ → Waiting.World
  pub read : ℕ → ℕ → Answer Db
  pub spot_check : Option String
  pub known_issues : List Entry

pub record Args : Type 0 where
  pub status_only : Option ℕ
  pub baseline : BaselineArg
  pub timeout_min : ℕ
  pub stall_min : ℕ
  pub rest_only : Bool

pub data Act : Type 0 where
  submits enables : Act
  waits evaluates : ℕ → Act

-- the exit code, a SystemExit with the reason why there is no run, or for a bad specification, or the
-- error that is raised
pub data End : Type 0 where
  code : ℕ → End
  held not_submitted : Text → End
  bad_spec : Expect.Bad → End
  error : String → End
  no_error : End
  out_of_fuel : End

abbrev pub Ran : Type 0
Ran = List Act × End

abbrev pub first : Act → Ran → Ran
first a r = (a ∷ r.0, r.1)

-- an active run holds one of the objects, or SUBMIT_PIPELINE failed otherwise
unfoldable pub refusal : Text → End
refusal msg =
    if contains (codes "ORA-20105") msg then held (take 300 msg) else not_submitted (take 300 msg)

-- one evaluation on a fresh connection
unfoldable pub attempt : World → ℕ → BaselineArg → ℕ → Answer (Checked Result)
attempt w id arg i = elim (w.read id i) [
  | gives db ↦ gives (evaluate db id arg)
  | db_error e ↦ db_error e
  | other_error e ↦ other_error e
]

unfoldable pub ended : World → Outcome (Checked Result) → End
ended w (returned (checked r)) = code (conclude w.known_issues r).exit_code
ended w (returned (exits b)) = bad_spec b
ended w (raised e) = error e
ended w _ = no_error

-- from the evaluation on, with 3 attempts and 15 seconds behind the first
unfoldable pub judge : World → Args → ℕ → Ran
unfolding attempt ended
judge w a id = (evaluates id ∷ [], ended w (retry_db (attempt w id a.baseline) 15 3).0)

-- ensure_poller, and what follows when it returns
unfoldable pub ensure_poller : World → Ran → Ran
ensure_poller w rest = first enables (elim (retry_db w.enable 15 3).0 [
  | returned u ↦ rest
  | raised e ↦ ([], error e)
  | _ ↦ ([], no_error)
])

unfoldable pub wait_and_judge : World → Args → ℕ → Ran
unfolding judge
wait_and_judge w a id =
    first (waits id) (elim (wait_for_run (w.waiting id) a.timeout_min a.stall_min) [
      | none ↦ ([], out_of_fuel)
      | some final ↦ judge w a id
    ])

unfoldable pub submit_and_judge : World → Args → Ran
unfolding refusal ensure_poller wait_and_judge
submit_and_judge w a = elim w.submission [
  | no_connection e ↦ ([], error e)
  | raises msg ↦ (submits ∷ [], refusal msg)
  | submitted id ↦ first submits (ensure_poller w (wait_and_judge w a id))
]

unfoldable pub main : World → Args → Ran
unfolding submit_and_judge judge
main w a =
    if a.rest_only
    then ([], elim w.spot_check [ none ↦ code 0 | some e ↦ error e ])
    else elim a.status_only [
      | none ↦ submit_and_judge w a
      | some id ↦ if nat_beq id 0 then submit_and_judge w a else judge w a id
    ]
