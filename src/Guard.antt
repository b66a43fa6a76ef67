-- ===== src/Guard.antt =====
-- scripts/dmt_deploy_guard.py: the shared-database deploy rule. A check of the database is a
-- `View`; the n-th check of the wait loop sees `check n` of the world, and `clock n` is the reading
-- of the monotonic clock in that round.
pub mod Idle
pub mod Waiting
mod Tests
use text.Mathlib.Text.{find?}
use data_migration_tool.Prelude.{
  ℕ, zero, suc, ◌+◌, ◌-◌, ◌/◌, ◌≤◌, ◌<◌, String, Bool, true, false, not, ◌&&◌, List, [], ◌∷◌, ◌++◌,
  map, Option, none, some, leb, ltb, if◌then◌else◌, ◌==◌, starts_with, keep, any, is_empty, length,
  take,
}

-- What a query answers: its rows, or the text of the database error that it raises.
pub data Query {ℓ} (A : Type ℓ) : Type ℓ where
  rows : List A → Query A
  raised : String → Query A

pub data Result {ℓ} (A : Type ℓ) : Type ℓ where
  ok : A → Result A
  err : String → Result A

infixl 10 ◌>>=◌
abbrev pub ◌>>=◌ {ℓ κ} : {A : Type ℓ} {B : Type κ} → Result A → (A → Result B) → Result B
ok a >>= f = f a
err e >>= f = err e

-- One row of DMT_PIPELINE_RUN_TBL. A NULL status is `none`; the age is that of SUBMITTED_DATE.
pub record RunRow : Type 0 where
  pub run_id : ℕ
  pub run_status : Option String
  pub age_seconds : ℕ

-- One row of USER_OBJECTS.
pub record ObjectRow : Type 0 where
  pub object_type : String
  pub object_name : String
  pub status : String

-- What a fresh connection shows at one check: the running scheduler jobs, the runs, the objects.
pub record View : Type 0 where
  pub connects : Bool
  pub jobs : Query String
  pub runs : Query RunRow
  pub objects : Query ObjectRow

pub data Blocker : Type 0 where
  job : String → Blocker
  run : ℕ → String → Blocker

abbrev pub job_families : List String
job_families = "DMT_WQ_" ∷ "DMT_PF_" ∷ "DMT_PL_" ∷ "DMT_RC_" ∷ []

abbrev pub terminal_run_statuses : List String
terminal_run_statuses =
    "COMPLETED" ∷ "COMPLETED_ERRORS" ∷ "FAILED" ∷ "CANCELLED" ∷ "NO_ROWS_PROCESSED" ∷ []

-- The WHERE of `_RUNNING_SQL`: LIKE with an escaped prefix and a trailing `%`.
unfoldable pub is_dmt_job : String → Bool
is_dmt_job name = any (λ p. starts_with name p) job_families

-- The WHERE of `_ACTIVE_RUNS_SQL`; NOT IN is not true of a NULL status.
unfoldable pub is_active : RunRow → Bool
is_active r =
    ltb r.age_seconds 86400
    && elim r.run_status [ none ↦ false | some s ↦ not (any (λ t. s == t) terminal_run_statuses) ]

unfoldable pub running_dmt_jobs : View → Result (List String)
running_dmt_jobs v = elim v.jobs [ rows js ↦ ok (keep is_dmt_job js) | raised e ↦ err e ]

abbrev pub contains : String → String → Bool
contains s t = elim (find? s t) [ none ↦ false | some _ ↦ true ]

abbrev pub status_text : RunRow → String
status_text r = elim r.run_status [ none ↦ "None" | some s ↦ s ]

unfoldable pub active_runs : View → Result (List RunRow)
active_runs v = elim v.runs [
  | rows rs ↦ ok (keep is_active rs)
  | raised e ↦ if contains e "ORA-00942" then ok [] else err e
]

-- `_blockers`, with the `connect()` in front of it
unfoldable pub blockers : View → Result (List Blocker)
unfolding running_dmt_jobs active_runs
blockers v = if not v.connects then err "connect failed" else do
  jobs ← running_dmt_jobs v
  runs ← active_runs v
  ok (map job jobs ++ map (λ r. run r.run_id (status_text r)) runs)

pub data Log : Type 0 where
  unreadable : String → Log
  no_job_running : Log
  finished_after : ℕ → Log
  refusing waiting : ℕ → ℕ → List Blocker → Log

pub record Outcome : Type 0 where
  pub proceed : Bool
  pub log : List Log

pub record World : Type 0 where
  pub check : ℕ → View
  pub start : ℕ
  pub clock : ℕ → ℕ

abbrev pub elapsed : World → ℕ → ℕ
elapsed w n = w.clock n - w.start

abbrev log_first : Log → Option Outcome → Option Outcome
log_first l none = none
log_first l (some o) = some (record o { log = l ∷ o.log })

-- What one round decides, given what the loop does after the sleep.
unfoldable pub round :
    World → ℕ → ℕ → Bool → Option Outcome → Result (List Blocker) → Option Outcome
round w timeout_s n first rest (err e) = some (record { proceed = false; log = unreadable e ∷ [] })
round w timeout_s n first rest (ok []) = some (record {
  proceed = true;
  log = (if first then no_job_running else finished_after (elapsed w n)) ∷ [];
})
round w timeout_s n first rest (ok (b ∷ bs)) =
    let found = b ∷ bs in
    let shown = take 8 found in
    if leb timeout_s (elapsed w n)
    then some (record { proceed = false; log = refusing (length found) (elapsed w n) shown ∷ [] })
    else log_first (waiting (length found) (elapsed w n) shown) rest

-- The `while True` loop from its n-th round on, on fuel.
unfoldable pub wait_loop : World → ℕ → ℕ → ℕ → Bool → Option Outcome
wait_loop w timeout_s zero n first = none
wait_loop w timeout_s (suc fuel) n first =
    let rest = wait_loop w timeout_s fuel (n + 1) false in
    round w timeout_s n first rest (blockers (w.check n))

abbrev pub default_timeout_s : ℕ
default_timeout_s = 2700

abbrev pub default_poll_s : ℕ
default_poll_s = 20

abbrev pub or_default : Option ℕ → ℕ → ℕ
or_default none d = d
or_default (some n) d = n

-- Each round but the last sleeps `poll_s`, so `timeout_s / poll_s + 2` rounds are enough.
unfoldable pub wait_until_no_dmt_jobs : World → Option ℕ → Option ℕ → Option Outcome
unfolding wait_loop
wait_until_no_dmt_jobs w timeout poll =
    let timeout_s = or_default timeout default_timeout_s in
    let poll_s = or_default poll default_poll_s in
    wait_loop w timeout_s (timeout_s / poll_s + 2) 0 true

unfoldable pub invalid_objects : View → Result (List ObjectRow)
invalid_objects v =
    if not v.connects
    then err "connect failed"
    else elim v.objects [ rows os ↦ ok (keep (λ o. o.status == "INVALID") os) | raised e ↦ err e ]

-- `none` when even the fresh connection fails
unfoldable pub count_invalid : View → Option ℕ
unfolding invalid_objects
count_invalid v = elim (invalid_objects v) [ ok bad ↦ some (length bad) | err e ↦ none ]

unfoldable pub assert_no_invalid : View → Bool
unfolding invalid_objects
assert_no_invalid v = elim (invalid_objects v) [ ok bad ↦ is_empty bad | err e ↦ false ]
