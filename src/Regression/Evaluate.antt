-- ===== src/Regression/Evaluate.antt =====
-- scripts/dmt_regression_run.py: `evaluate`, the steps put together over what the queries return.
pub mod Sound
mod Tests
use data_migration_tool.Prelude.{
  ℕ, ◌+◌, ◌-◌, ◌⊎◌, inl, inr, Bool, not, ◌||◌, Option, none, some, List, [], ◌∷◌, ◌++◌, map,
  nat_beq, if◌then◌else◌, take, is_empty,
}
use data_migration_tool.Prelude.Text.{Text, codes, text_eq}
use data_migration_tool.Gate.Evidence.{decimal}
use data_migration_tool.Regression.Rows.{Record, Expected, loaded}
use data_migration_tool.Regression.Rows.Counts.{PerObj, record_failures, tally_all, sorted_items}
use data_migration_tool.Regression.Baseline.{
  BaseRow, Base, BaselineArg, Run, tally_bases, regressions, resolve_baseline,
}
use data_migration_tool.Regression.Expect.{
  Spec, Staging, Pick, SelectionFailure, Checked, exits, checked, resolve_expectations,
  check_failed_mode_selection,
}
use data_migration_tool.Regression.Messages.{message, regression_text, selection_message}
use data_migration_tool.Regression.Sweep.{
  QueueRow, queue_rollup, zero_records, LogRow, log_sweep, log_review, no_log, JobRow, job_failures,
}
use data_migration_tool.Regression.Rest.{Target, rest_review}
use data_migration_tool.Regression.Waiting.{is_one_of}
use data_migration_tool.Regression.Known.{Result}

-- the row of DMT_PIPELINE_RUN_TBL
pub record RunInfo : Type 0 where
  pub run_status : Text
  pub pipeline_codes : Text
  pub scenario : Text
  pub failed_mode : Bool
  pub prefix : Option Text
  pub run_err : Option Text

-- What the queries of one evaluation return. The spot check raises or finds its targets.
pub record Db : Type 0 where
  pub run : Option RunInfo
  pub queue : List QueueRow
  pub records : List Record
  pub spec : Checked Spec
  pub staging : Staging
  pub picks : Option (Text → List Pick)
  pub logs : List LogRow
  pub orphan_errors : ℕ
  pub jobs : List JobRow
  pub runs : List Run
  pub base_rows : ℕ → List BaseRow
  pub targets : Text ⊎ List Target

unfoldable pub status_failures : RunInfo → List Text
status_failures info =
    if is_one_of ("COMPLETED" ∷ "COMPLETED_ERRORS" ∷ []) info.run_status
    then []
    else (codes "RUN_STATUS="
        ++ (info.run_status ++ (elim info.run_err [
          | none ↦ []
          | some e ↦ if is_empty e then [] else codes " | " ++ take 200 e
        ])))
      ∷ []

-- the missing rows, and the failures of [2b]
unfoldable pub selection : Db → RunInfo → Spec → List Text → List SelectionFailure × List Text
selection db info spec missing =
    if info.failed_mode
    then check_failed_mode_selection db.picks spec db.records missing
    else ([], missing)

-- the columns of a baseline row that the expected outcomes are looked up by
abbrev pub as_record : BaseRow → Record
as_record b = record {
  cemli = [];
  sub = b.sub;
  key = b.key;
  status = b.status;
  err_txt = [];
  stg_seq = b.stg_seq;
  doc_pos = 0;
  fusion_id = none;
}

-- `none`: the diff is skipped
unfoldable pub baseline_id : Db → ℕ → BaselineArg → RunInfo → Option ℕ
baseline_id db id arg info =
    elim (resolve_baseline id arg info.scenario info.pipeline_codes db.runs) [
      | none ↦ none
      | some b ↦ if nat_beq b 0 || info.failed_mode then none else some b
    ]

unfoldable pub baseline_texts : Db → Spec → PerObj → Option ℕ → List Text
baseline_texts db spec per none = []
baseline_texts db spec per (some b) =
    let rows = db.base_rows b in
    let (exp, missing) = resolve_expectations db.staging spec (map as_record rows) [] in
    map regression_text (regressions per (tally_bases exp rows []))

unfoldable pub baseline_failures : Option ℕ → List Text → List Text
baseline_failures none rs = []
baseline_failures (some b) rs =
    map (λ r. codes "baseline regression vs run " ++ (decimal b ++ (codes ": " ++ r))) rs

unfoldable pub rest_items : Text ⊎ List Target → List Text
rest_items (inl e) = (codes "REST spot-check could not run: " ++ take 180 e) ∷ []
rest_items (inr ts) = rest_review ts

unfoldable pub evaluate_run : Db → ℕ → BaselineArg → RunInfo → Spec → Result
evaluate_run db id arg info spec =
    let (exp, missing) = resolve_expectations db.staging spec db.records [] in
    let (selected, absent) = selection db info spec missing in
    let q = queue_rollup db.queue in
    let per = tally_all exp db.records [] in
    let base = baseline_id db id arg info in
    let texts = baseline_texts db spec per base in
    record {
      failures =
          status_failures info
          ++ (q.failures
              ++ (map (selection_message info.scenario) selected
                  ++ (map message (record_failures exp absent db.records)
                      ++ (job_failures db.jobs ++ baseline_failures base texts))));
      review =
          q.review
          ++ (zero_records (map (λ e. e.1.cemli) per) db.queue
              ++ (log_review (log_sweep db.logs no_log) db.orphan_errors ++ rest_items db.targets));
      prefix = info.prefix;
      baseline_regressions = texts;
      objects = map (λ r. r.cemli) db.queue;
      record_subs = map (λ e. e.0) per;
    }

unfoldable pub evaluate : Db → ℕ → BaselineArg → Checked Result
evaluate db id arg = elim db.run [
  | none ↦ checked (record {
    failures = (codes "RUN_ID " ++ (decimal id ++ codes " not found in DMT_PIPELINE_RUN_TBL")) ∷ [];
    review = [];
    prefix = none;
    baseline_regressions = [];
    objects = [];
    record_subs = [];
  })
  | some info ↦ elim db.spec [
    | exits b ↦ exits b
    | checked spec ↦ checked (evaluate_run db id arg info spec)
  ]
]
