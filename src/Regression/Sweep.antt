-- ===== src/Regression/Sweep.antt =====
-- scripts/dmt_regression_run.py, steps 1, 3 and 4 of `evaluate`: the queue, the log and the jobs.
use data_migration_tool.Prelude.{
  ℕ, ◌+◌, not, ◌&&◌, Option, none, some, List, [], ◌∷◌, ◌++◌, map, nat_beq, if◌then◌else◌, take,
  is_empty, any,
}
use data_migration_tool.Prelude.Text.{Text, codes, text_eq}
use data_migration_tool.Gate.Evidence.{decimal}
use data_migration_tool.Regression.Waiting.{terminal_queue_statuses, is_one_of}

-- what a sweep appends
pub record Found : Type 0 where
  pub failures : List Text
  pub review : List Text

pub record QueueRow : Type 0 where
  pub cemli : Text
  pub wstatus : Text
  pub werr : Option Text

unfoldable pub queue_row : QueueRow → Found → Found
queue_row r f =
    if is_one_of ("FAILED" ∷ "CANCELLED" ∷ []) r.wstatus
    then record f {
      failures =
          (codes "queue "
            ++ (r.wstatus
                ++ (codes ": "
                    ++ (r.cemli
                        ++ (codes " — " ++ (elim r.werr [
                          | none ↦ codes "(no error message)"
                          | some e ↦ if is_empty e then codes "(no error message)" else e
                        ]))))))
          ∷ f.failures;
    }
    else if not (is_one_of terminal_queue_statuses r.wstatus)
    then record f {
      failures =
          (codes "queue stuck: " ++ (r.cemli ++ (codes " left in " ++ r.wstatus))) ∷ f.failures;
    }
    else if text_eq r.wstatus (codes "SKIPPED")
    then record f {
      review =
          (codes "queue SKIPPED: " ++ (r.cemli ++ codes " (dependency failed upstream)"))
          ∷ f.review;
    }
    else f

unfoldable pub queue_rollup : List QueueRow → Found
queue_rollup [] = record { failures = []; review = [] }
queue_rollup (r ∷ q) = queue_row r (queue_rollup q)

-- DONE objects of the queue without a record
unfoldable pub zero_records : List Text → List QueueRow → List Text
zero_records cemlis [] = []
zero_records cemlis (r ∷ q) =
    let rest = zero_records cemlis q in
    if text_eq r.wstatus (codes "DONE") && not (any (λ c. text_eq c r.cemli) cemlis)
    then (codes "DONE with zero records: " ++ (r.cemli ++ codes " (no staged regression data?)"))
      ∷ rest
    else rest

-- a row of DMT_LOG_TBL that is not INFO, with its message's white space collapsed
pub record LogRow : Type 0 where
  pub log_type : Text
  pub loc : Text
  pub msg1 : Text
  pub sqlerrm : Text

-- a group of log rows: its key, how many there are and the text of the first
abbrev pub Group : Type 0
Group = List ((Text × Text) × (ℕ × Text))

unfoldable pub add_to : Text × Text → Text → Group → Group
add_to k t [] = (k, (1, t)) ∷ []
add_to k t ((j, g) ∷ d) =
    if text_eq j.0 k.0 && text_eq j.1 k.1 then (j, (g.0 + 1, g.1)) ∷ d else (j, g) ∷ add_to k t d

pub record LogSweep : Type 0 where
  pub log_errors : ℕ
  pub log_warns : ℕ
  pub malformed : ℕ
  pub err_groups : Group
  pub malformed_groups : Group

unfoldable pub log_row : LogRow → LogSweep → LogSweep
log_row r s =
    if text_eq r.log_type (codes "ERROR")
    then record s {
      log_errors = s.log_errors + 1;
      err_groups = add_to (r.loc, take 100 r.msg1) r.sqlerrm s.err_groups;
    }
    else if text_eq r.log_type (codes "WARN")
    then record s { log_warns = s.log_warns + 1 }
    else if not (is_one_of ("INFO" ∷ "WARN" ∷ "ERROR" ∷ "DEBUG" ∷ []) r.log_type)
    then record s {
      malformed = s.malformed + 1;
      malformed_groups =
          add_to (r.log_type, []) (r.loc ++ (codes ": " ++ take 80 r.msg1)) s.malformed_groups;
    }
    else s

unfoldable pub log_sweep : List LogRow → LogSweep → LogSweep
log_sweep [] s = s
log_sweep (r ∷ rs) s = log_sweep rs (log_row r s)

abbrev pub no_log : LogSweep
no_log = record {
  log_errors = 0;
  log_warns = 0;
  malformed = 0;
  err_groups = [];
  malformed_groups = [];
}

-- the review items of step 3, with the ERROR rows that carry no run id
unfoldable pub log_review : LogSweep → ℕ → List Text
log_review s orphan_errors =
    map
      (λ g.
        codes "LOG ERROR x"
        ++ (decimal g.1.0
            ++ (codes ": "
                ++ (g.0.0
                    ++ (codes ": "
                        ++ (g.0.1 ++ (if is_empty g.1.1 then [] else codes " | " ++ g.1.1)))))))
      s.err_groups
    ++ map
        (λ g.
          codes "LOG malformed LOG_TYPE '"
          ++ (g.0.0
              ++ (codes "' x" ++ (decimal g.1.0 ++ (codes " (swapped LOG args) e.g. " ++ g.1.1)))))
        s.malformed_groups
    ++ (if nat_beq orphan_errors 0
        then []
        else (decimal orphan_errors
            ++ codes " ERROR log rows with NULL run_id during the run window")
          ∷ [])

-- a scheduler job in the run's window that did not succeed
pub record JobRow : Type 0 where
  pub jname : Text
  pub jstatus : Text
  pub jinfo : Text

unfoldable pub job_failures : List JobRow → List Text
job_failures js =
    map
      (λ j.
        codes "scheduler job "
        ++ (j.jname ++ (codes " " ++ (j.jstatus ++ (codes ": " ++ j.jinfo)))))
      js
