-- ===== src/Gate/Report.antt =====
-- scripts/promotion_gate.py: the report that the checks of the gate write, with `fail` and `good`. A
-- message is a constructor with the values that its text shows.
use data_migration_tool.Prelude.{String, Bool, false, Option, List, [], ◌∷◌, ◌++◌, if◌then◌else◌}
use data_migration_tool.Prelude.Text.{Text}
use data_migration_tool.Gate.Evidence.{Value}

pub data Group : Type 0 where
  general deploy regression clickthrough : Group

-- Why evidence is or is not for the code at hand.
pub data How : Type 0 where
  commit_matches : How
  tree_matches : Value → How
  code_tree_matches : Value → String → How
  differs : Value → Value → String → Option String → How

pub data Reason : Type 0 where
  dirty_tree : List Text → Reason
  no_evidence : Reason
  unreadable_evidence : String → Reason
  no_deploy : Reason
  other_code : How → Reason
  deploy_not_clean : Reason
  deploy_dirty : Reason
  no_regression : Reason
  not_on_local : Value → Reason
  pipelines_missing : Value → List String → Reason
  regression_failed : Value → Value → Value → Value → Reason
  regression_dirty : Reason
  no_run_id : Reason
  no_finish_time : Reason
  regression_stale : Value → Reason
  finish_in_future : Value → Reason
  deployed_after_start : Value → Value → Reason
  no_clickthrough : Reason
  drilled_other_run : Value → Value → Reason
  not_local_console : Value → Reason
  clickthrough_failed : Value → Value → Reason
  clickthrough_dirty : Reason
  no_clickthrough_time : Reason
  clickthrough_stale : Value → Reason
  clickthrough_too_early : Value → Value → Reason

pub data Note : Type 0 where
  same_code_note : How → Note
  regression_passed : Value → Note
  regression_recent : Value → Note
  clickthrough_passed : Value → Note

pub data Line : Type 0 where
  promoting : String → String → Option String → Line
  code_basis : Line
  refused : Reason → Line
  passed : Note → Line

pub record Report : Type 0 where
  pub ok : Bool
  pub lines : List Line
  pub failures : List (Group × Reason)

-- `fail` and `good`, with the current value of `group`
abbrev pub fail : Group → Reason → Report → Report
fail g why r = record r {
  ok = false;
  lines = r.lines ++ refused why ∷ [];
  failures = r.failures ++ (g, why) ∷ [];
}

abbrev pub good : Note → Report → Report
good n r = record r { lines = r.lines ++ passed n ∷ [] }

unfoldable pub fail_if : Bool → Group → Reason → Report → Report
fail_if c g why r = if c then fail g why r else r
