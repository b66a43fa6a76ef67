-- ===== src/Gate/Tests.antt =====
-- The gate on one promotion: evidence that passes, a regression that failed, and the override.
use data_migration_tool.Prelude.{ℕ, ◌≡◌, refl, ◌↔◌, Bool, true, false, none, some, List, [], ◌∷◌}
use data_migration_tool.Prelude.Text.{
  codes, has_prefix, has_suffix, text_eq, split_on, strip, rstrip, lstrip, is_space, lower,
  lower_code,
}
use data_migration_tool.Gate.Evidence.{
  flag, num, text, stamp, Entry, get, truthy, is_text, is_zero, show, decimal, parse_time,
  regression_verdict_passes, Evidence, Loaded, loaded, step_of, decimal_onto,
}
use data_migration_tool.Gate.Paths.{Identity}
use data_migration_tool.Gate.Report.{fail_if, regression, regression_dirty}
use data_migration_tool.Gate.SameCode.{Revisions, same_code, evidence_code_tree, judge}
use data_migration_tool.Gate.Check
use data_migration_tool.Gate.Check.{check_gate_detail}
use data_migration_tool.Gate.Check.Spec.{Promotable}
use data_migration_tool.Gate.Check.Sound.{check_gate-Promotable}
use data_migration_tool.Gate.Log.{Store}
use data_migration_tool.Gate.Override.{
  Terminal, Failure, is_terminal, bypassed, blocking, confirmation, confirms,
  authorize_owner_override, enforce,
}
use data_migration_tool.Gate.Override.Narrow.{Authorized, authorize-Authorized}
use data_migration_tool.Gate.Override.Blocking.{Grounded, enforce-Grounded}

abbrev head : Identity
head = record {
  commit = "c0ffee0123";
  tree = "7ree";
  code_tree = some "hash";
  dirty = false;
  dirty_files = [];
}

abbrev no_revisions : Revisions
no_revisions c = none

abbrev deploy_entry : Entry
deploy_entry = ("ok", flag true) ∷ ("commit", text "c0ffee0123") ∷ ("at", stamp "t0" 1000) ∷ []

abbrev regression_entry : Entry
regression_entry =
    ("run_id", num 412)
    ∷ ("commit", text "older")
    ∷ ("code_tree", text "hash")
    ∷ ("target", text "local")
    ∷ ("pipelines", text "P2P, O2C,FINANCIALS,PROJECTS,HCM,CONFIGURATION")
    ∷ ("exit_code", num 0)
    ∷ ("verdict", text "PASS (no new failures; 3 known)")
    ∷ ("new_failures", num 0)
    ∷ ("started_at", stamp "t1" 1100)
    ∷ ("finished_at", stamp "t2" 2000)
    ∷ []

abbrev click_entry : Entry
click_entry =
    ("run_id", text "412")
    ∷ ("tree", text "7ree")
    ∷ ("base_url", text "http://localhost:8080/ords")
    ∷ ("exit_code", num 0)
    ∷ ("verdict", text "PASS")
    ∷ ("at", stamp "t3" 2500)
    ∷ []

abbrev proven : Evidence
proven = record {
  schema = some 1;
  steps =
      ("deploy_local", deploy_entry)
      ∷ ("regression", regression_entry)
      ∷ ("clickthrough_local", click_entry)
      ∷ [];
}

-- the gate's answer, with all that it calls open
gate_ok : Identity → ℕ → Loaded → Bool
unfolding check_gate_detail Check.check_regression Check.check_age Check.check_deploy
    Check.check_order Check.check_tree Check.check_verdict Check.deployed_late Check.did_not_pass
    Check.is_empty_evidence Check.missing_pipelines Check.pipelines_ran Check.check_clickthrough
    Check.check_click_result Check.check_click_time Check.is_local_console decimal decimal_onto
    regression_verdict_passes evidence_code_tree has_suffix has_prefix is_space lstrip rstrip
    split_on strip text_eq get truthy is_text is_zero show parse_time step_of fail_if same_code
    judge lower
gate_ok i now file = (check_gate_detail no_revisions i now file).ok

passes : (check_gate_detail no_revisions head 3000 (loaded proven)).ok ≡ true
unfolding gate_ok
passes = refl

too_old : (check_gate_detail no_revisions head 88401 (loaded proven)).ok ≡ false
unfolding gate_ok
too_old = refl

abbrev store : Store
store = record { file = loaded proven; log = [] }

abbrev no_terminal : Terminal
no_terminal = record { is_tty = some false; typed = none }

abbrev owner : Terminal
owner = record { is_tty = some true; typed = some (codes " C0FFEE01 ") }

abbrev one_failure : List Failure
one_failure = (regression, regression_dirty) ∷ []

check_gate-Promotable_example :
    ((check_gate_detail no_revisions head 3000 (loaded proven)).ok ≡ true)
    ↔ Promotable no_revisions head 3000 proven
check_gate-Promotable_example = check_gate-Promotable no_revisions head 3000 proven

authorize-Authorized_example :
    ((authorize_owner_override (codes "demo") head one_failure owner "o" store).0 ≡ true)
    ↔ Authorized (codes "demo") head one_failure owner
authorize-Authorized_example = authorize-Authorized (codes "demo") head one_failure owner "o" store

owner_accepted : (authorize_owner_override (codes "demo") head one_failure owner "o" store).0 ≡ true
unfolding gate_ok authorize_owner_override is_terminal bypassed blocking confirmation confirms
    lower_code
owner_accepted = refl

agent_refused :
    (authorize_owner_override (codes "demo") head one_failure no_terminal "o" store).0 ≡ false
unfolding authorize_owner_override is_terminal
agent_refused = refl

enforced : (enforce no_revisions head 3000 "deploy-prod" none no_terminal "o" store).0 ≡ true
unfolding gate_ok enforce
enforced = refl

enforce-Grounded_example : Grounded no_revisions head store.file
enforce-Grounded_example =
    enforce-Grounded no_revisions head 3000 "deploy-prod" none no_terminal "o" store enforced
