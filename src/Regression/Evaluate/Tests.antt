-- ===== src/Regression/Evaluate/Tests.antt =====
-- A run with one work item and one good row, which the earlier run loaded too.
use data_migration_tool.Prelude.{◌≡◌, refl, inr, true, false, none, some, [], ◌∷◌, is_empty}
use data_migration_tool.Prelude.Text.{codes, text_eq, has_prefix, upper, lstrip}
use data_migration_tool.Regression.Rows.{
  contains, digits_to_boundary, is_digit, is_word, is_bad_suffix, bad_key_regex, is_bad_key,
  to_bracket, error_category, is_bad_row, loaded, Record, lookup_expected, is_bad,
}
use data_migration_tool.Regression.Rows.Counts.{
  record_failures, tally_all, tally, count_row, count_loaded, has_id, problems, row_problem,
  sorted_items, insert_named, all_stats_failures, stats_failures, if_any,
}
use data_migration_tool.Regression.Baseline.{
  auto, latest_before, resolve_baseline, is_bad_base, count_base, tally_base, tally_bases, find,
  now_of, deltas, names, regression_of, regressions_of, regressions,
}
use data_migration_tool.Regression.Expect.{checked, resolve_expectations}
use data_migration_tool.Regression.Sweep.{queue_row, queue_rollup, job_failures}
use data_migration_tool.Regression.Waiting.{is_one_of}
use data_migration_tool.Regression.Evaluate.{
  RunInfo, Db, evaluate, evaluate_run, status_failures, selection, baseline_id, baseline_texts,
  baseline_failures,
}
use data_migration_tool.Regression.Evaluate.Sound.{Sound, evaluate-Sound}

abbrev info : RunInfo
info = record {
  run_status = codes "COMPLETED";
  pipeline_codes = codes "P2P";
  scenario = codes "S";
  failed_mode = false;
  prefix = some (codes "93402");
  run_err = none;
}

abbrev good_row : Record
good_row = record {
  cemli = codes "SUP";
  sub = codes "Suppliers";
  key = some (codes "93402SUP-1");
  status = loaded;
  err_txt = [];
  stg_seq = some 1;
  doc_pos = 0;
  fusion_id = some (codes "300100");
}

abbrev db : Db
db = record {
  run = some info;
  queue = record { cemli = codes "SUP"; wstatus = codes "DONE"; werr = none } ∷ [];
  records = good_row ∷ [];
  spec = checked [];
  staging = λ t c. [];
  picks = none;
  logs = [];
  orphan_errors = 0;
  jobs = [];
  runs =
      record { run_id = 355; scenario = codes "S"; pipeline_codes = codes "P2P"; completed = true }
      ∷ [];
  base_rows = λ b.
      record {
        sub = codes "Suppliers";
        key = some (codes "93401SUP-1");
        status = loaded;
        err = none;
        stg_seq = some 1;
      }
      ∷ [];
  targets = inr [];
}

no_failure : is_empty (evaluate_run db 356 auto info []).failures ≡ true
unfolding evaluate_run resolve_expectations selection queue_rollup queue_row is_one_of text_eq
    status_failures job_failures baseline_id resolve_baseline latest_before baseline_texts
    baseline_failures record_failures tally_all tally count_row count_loaded has_id problems
    row_problem lookup_expected is_bad is_bad_row is_bad_key contains bad_key_regex is_bad_suffix
    digits_to_boundary is_digit is_word has_prefix upper error_category to_bracket lstrip
    is_bad_base count_base tally_base tally_bases find now_of deltas names regression_of
    regressions_of regressions sorted_items insert_named all_stats_failures stats_failures if_any
no_failure = refl

compared : baseline_id db 356 auto info ≡ some 355
unfolding baseline_id resolve_baseline latest_before text_eq
compared = refl

found : evaluate db 356 auto ≡ checked (evaluate_run db 356 auto info [])
unfolding evaluate
found = refl

evaluate-Sound_example : Sound db 356 auto
evaluate-Sound_example =
    evaluate-Sound db 356 auto (evaluate_run db 356 auto info []) found no_failure
