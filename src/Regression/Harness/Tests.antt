-- ===== src/Regression/Harness/Tests.antt =====
-- A run whose poller and first evaluation meet a database error, and an object that another run holds.
use data_migration_tool.Prelude.{
  ℕ, ◌≡◌, refl, ap, ◌⊎◌, inr, true, false, none, some, [], ◌∷◌, nat_beq, if◌then◌else◌,
}
use data_migration_tool.Prelude.Text.{codes, text_eq, has_prefix}
use data_migration_tool.Regression.Rows.{contains}
use data_migration_tool.Regression.Baseline.{auto, latest_before, resolve_baseline}
use data_migration_tool.Regression.Evaluate.{
  Db, evaluate, evaluate_run, status_failures, selection, baseline_id, baseline_texts,
  baseline_failures, rest_items,
}
use data_migration_tool.Regression.Rows.Counts.{
  record_failures, tally_all, problems, sorted_items, all_stats_failures,
}
use data_migration_tool.Regression.Expect.{checked, resolve_expectations}
use data_migration_tool.Regression.Sweep.{
  queue_rollup, job_failures, zero_records, log_review, log_sweep,
}
use data_migration_tool.Regression.Rest.{rest_review}
use data_migration_tool.Regression.Known.{conclude, classify_issues, exit_code_of}
use data_migration_tool.Regression.Waiting
use data_migration_tool.Connect.{Answer, gives, db_error, retry_db, attempt_from}
use data_migration_tool.Regression.Harness.{
  World, Args, submits, enables, waits, evaluates, code, held, submitted, raises, refusal, attempt,
  ended, judge, ensure_poller, wait_and_judge, submit_and_judge, main,
}
use data_migration_tool.Regression.Harness.Judged.{RunOf, Judged, main-Judged}

abbrev empty_run : Db
empty_run = record {
  run = some (record {
    run_status = codes "COMPLETED";
    pipeline_codes = codes "P2P";
    scenario = codes "S";
    failed_mode = false;
    prefix = none;
    run_err = none;
  });
  queue = [];
  records = [];
  spec = checked [];
  staging = λ t c. [];
  picks = none;
  logs = [];
  orphan_errors = 0;
  jobs = [];
  runs = [];
  base_rows = λ b. [];
  targets = inr [];
}

-- the first call of a retried one
abbrev lost_once : {A : Type 0} → A → ℕ → Answer A
lost_once a i = if nat_beq i 1 then db_error "DPY-4011" else gives a

abbrev world : World
world = record {
  submission = submitted 356;
  enable = lost_once tt;
  waiting = λ id. record {
    start = 0;
    poll = λ n. Waiting.reads (codes "COMPLETED") [];
    clock = λ n. n;
    later = λ n. n;
  };
  read = λ id. lost_once empty_run;
  spot_check = none;
  known_issues = [];
}

abbrev full_run : Args
full_run = record {
  status_only = none;
  baseline = auto;
  timeout_min = 1;
  stall_min = 20;
  rest_only = false;
}

passes : main world full_run ≡ (submits ∷ enables ∷ waits 356 ∷ evaluates 356 ∷ [], code 0)
unfolding main submit_and_judge ensure_poller wait_and_judge judge attempt ended retry_db
    attempt_from Waiting.wait_for_run Waiting.poll_loop Waiting.has_ended Waiting.is_one_of
    Waiting.non_terminal_q Waiting.is_snapshot evaluate evaluate_run status_failures selection
    baseline_id resolve_baseline latest_before baseline_texts baseline_failures rest_items
    resolve_expectations queue_rollup record_failures tally_all problems sorted_items
    all_stats_failures job_failures zero_records log_review log_sweep rest_review conclude
    classify_issues exit_code_of text_eq
passes = refl

held_run :
    main (record world { submission = raises (codes "ORA-20105: run 7 holds Items") }) full_run
    ≡ (submits ∷ [], held (codes "ORA-20105: run 7 holds Items"))
unfolding main submit_and_judge refusal contains has_prefix
held_run = refl

main-Judged_example :
    (full_run.rest_only ≡ true) ⊎ ((id : ℕ) × RunOf world full_run id × Judged world full_run id)
main-Judged_example = main-Judged world full_run (ap (λ r. r.1) passes)
