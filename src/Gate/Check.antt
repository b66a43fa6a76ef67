-- ===== src/Gate/Check.antt =====
-- scripts/promotion_gate.py: `check_gate_detail`, check by check. Times are seconds.
pub mod Spec
pub mod Parts
pub mod Sound
use data_migration_tool.Prelude.{
  ℕ, ◌+◌, ◌*◌, ◌/◌, String, Bool, true, false, not, ◌&&◌, ◌||◌, Option, none, some, List, [], ◌∷◌,
  map, ltb, if◌then◌else◌, take, is_empty, any, keep,
}
use data_migration_tool.Prelude.Text.{Text, codes, has_prefix, text_eq, split_on, strip}
use data_migration_tool.Gate.Evidence.{
  Value, null, text, Entry, get, truthy, is_text, is_zero, show, parse_time,
  regression_verdict_passes, Evidence, Loaded, absent, unreadable, loaded, step_of,
}
use data_migration_tool.Gate.Paths.{Identity}
use data_migration_tool.Gate.Report.{
  Group, general, deploy, regression, clickthrough, How, Reason, dirty_tree, no_evidence,
  unreadable_evidence, no_deploy, deploy_not_clean, deploy_dirty, no_regression, not_on_local,
  pipelines_missing, regression_failed, regression_dirty, no_run_id, no_finish_time,
  regression_stale, finish_in_future, deployed_after_start, no_clickthrough, drilled_other_run,
  not_local_console, clickthrough_failed, clickthrough_dirty, no_clickthrough_time,
  clickthrough_stale, clickthrough_too_early, regression_passed, regression_recent,
  clickthrough_passed, promoting, code_basis, Report, fail, good, fail_if,
}
use data_migration_tool.Gate.SameCode.{Revisions, same_code, judge}

abbrev pub full_pipelines : List String
full_pipelines = "P2P" ∷ "O2C" ∷ "FINANCIALS" ∷ "PROJECTS" ∷ "HCM" ∷ []

-- MAX_EVIDENCE_AGE_HOURS, in seconds
abbrev pub max_age : ℕ
max_age = 24 * 3600

-- {p.strip() for p in str(pipelines or "").split(",") if p.strip()}
unfoldable pub pipelines_ran : Value → List Text
pipelines_ran v =
    keep (λ p. not (is_empty p)) (map strip (split_on b',' (if truthy v then show v else [])))

unfoldable pub missing_pipelines : Value → List String
unfolding pipelines_ran
missing_pipelines v =
    keep (λ p. not (any (λ q. text_eq (codes p) q) (pipelines_ran v))) full_pipelines

unfoldable pub check_deploy : Revisions → Identity → Entry → Report → Report
check_deploy revs ident dep r =
    if is_empty dep
    then fail deploy no_deploy r
    else let r1 = judge deploy (same_code revs dep ident) r in
      let r2 = fail_if (not (truthy (get dep "ok"))) deploy deploy_not_clean r1 in
      fail_if (truthy (get dep "dirty")) deploy deploy_dirty r2

unfoldable pub did_not_pass : Entry → Bool
did_not_pass reg =
    not (is_zero (get reg "exit_code"))
    || not (regression_verdict_passes (get reg "verdict"))
    || truthy (get reg "new_failures")
    || truthy (get reg "new_review")

unfoldable pub check_verdict : Entry → Report → Report
unfolding did_not_pass
check_verdict reg r =
    if did_not_pass reg
    then fail regression
        (regression_failed (get reg "verdict") (get reg "exit_code") (get reg "new_failures")
          (get reg "new_review"))
        r
    else good (regression_passed (get reg "verdict")) r

-- the age of the run, at its finish time if it has one
unfoldable pub check_age : ℕ → Entry → Option ℕ → Report → Report
check_age now reg none r = fail regression no_finish_time r
check_age now reg (some reg_end) r =
    if ltb (reg_end + max_age) now
    then fail regression (regression_stale (get reg "finished_at")) r
    else if ltb (now + 300) reg_end
    then fail regression (finish_in_future (get reg "finished_at")) r
    else good (regression_recent (get reg "finished_at")) r

-- dep_at > (reg_start or reg_end)
unfoldable pub deployed_late : Option ℕ → Option ℕ → ℕ → Bool
deployed_late none start reg_end = false
deployed_late (some dep_at) none reg_end = ltb reg_end dep_at
deployed_late (some dep_at) (some reg_start) reg_end = ltb reg_start dep_at

unfoldable pub check_order : Entry → Entry → Option ℕ → Report → Report
check_order dep reg none r = r
check_order dep reg (some reg_end) r =
    fail_if
      (not (is_empty dep)
        && deployed_late (parse_time (get dep "at")) (parse_time (get reg "started_at")) reg_end)
      regression (deployed_after_start (get dep "at") (get reg "started_at")) r

unfoldable pub check_regression : Revisions → Identity → ℕ → Entry → Entry → Report → Report
check_regression revs ident now dep reg r =
    if is_empty reg
    then fail regression no_regression r
    else let reg_end = parse_time (get reg "finished_at") in
      let missing = missing_pipelines (get reg "pipelines") in
      let r1 = judge regression (same_code revs reg ident) r in
      let r2 =
        fail_if (not (is_text (get reg "target") "local")) regression
          (not_on_local (get reg "target")) r1 in
      let r3 =
        fail_if (not (is_empty missing)) regression
          (pipelines_missing (get reg "pipelines") missing) r2 in
      let r4 = check_verdict reg r3 in
      let r5 = fail_if (truthy (get reg "dirty")) regression regression_dirty r4 in
      let r6 = fail_if (not (truthy (get reg "run_id"))) regression no_run_id r5 in
      let r7 = check_age now reg reg_end r6 in check_order dep reg reg_end r7

-- LOCAL_UI_PREFIXES
unfoldable pub is_local_console : Value → Bool
is_local_console v =
    has_prefix (codes "http://localhost") (show v) || has_prefix (codes "http://127.0.0.1") (show v)

abbrev pub before_end : ℕ → Option ℕ → Bool
before_end ct_at none = false
before_end ct_at (some reg_end) = ltb ct_at reg_end

unfoldable pub check_click_time : ℕ → Entry → Entry → Option ℕ → Report → Report
check_click_time now reg ct none r = fail clickthrough no_clickthrough_time r
check_click_time now reg ct (some ct_at) r =
    let r1 =
      fail_if (ltb (ct_at + max_age) now) clickthrough (clickthrough_stale (get ct "at")) r in
    fail_if (before_end ct_at (parse_time (get reg "finished_at"))) clickthrough
      (clickthrough_too_early (get ct "at") (get reg "finished_at")) r1

unfoldable pub check_click_result : Entry → Report → Report
check_click_result ct r =
    if not (is_zero (get ct "exit_code")) || not (is_text (get ct "verdict") "PASS")
    then fail clickthrough (clickthrough_failed (get ct "verdict") (get ct "exit_code")) r
    else good (clickthrough_passed (get ct "run_id")) r

unfoldable pub check_clickthrough : Revisions → Identity → ℕ → Entry → Entry → Report → Report
check_clickthrough revs ident now reg ct r =
    if is_empty ct
    then fail clickthrough no_clickthrough r
    else let r1 = judge clickthrough (same_code revs ct ident) r in
      let r2 =
        fail_if
          (not (is_empty reg) && not (text_eq (show (get ct "run_id")) (show (get reg "run_id"))))
          clickthrough (drilled_other_run (get ct "run_id") (get reg "run_id")) r1 in
      let r3 =
        fail_if (not (is_local_console (get ct "base_url"))) clickthrough
          (not_local_console (get ct "base_url")) r2 in
      let r4 = check_click_result ct r3 in
      let r5 = fail_if (truthy (get ct "dirty")) clickthrough clickthrough_dirty r4 in
      check_click_time now reg ct (parse_time (get ct "at")) r5

-- the two header lines, and the dirty-tree check
unfoldable pub check_tree : Identity → Report
check_tree ident = fail_if ident.dirty general (dirty_tree (take 5 ident.dirty_files)) (record {
  ok = true;
  lines = promoting ident.commit ident.tree ident.code_tree ∷ code_basis ∷ [];
  failures = [];
})

-- `not ev`: an empty dict
unfoldable pub is_empty_evidence : Evidence → Bool
is_empty_evidence ev = elim ev.schema [ none ↦ is_empty ev.steps | some n ↦ false ]

unfoldable pub check_gate_detail : Revisions → Identity → ℕ → Loaded → Report
unfolding check_tree is_empty_evidence
check_gate_detail revs ident now absent = fail general no_evidence (check_tree ident)
check_gate_detail revs ident now (unreadable e) =
    fail general (unreadable_evidence e) (check_tree ident)
check_gate_detail revs ident now (loaded ev) =
    if is_empty_evidence ev
    then fail general no_evidence (check_tree ident)
    else let dep = step_of ev.steps "deploy_local" in
      let reg = step_of ev.steps "regression" in
      let ct = step_of ev.steps "clickthrough_local" in
      check_clickthrough revs ident now reg ct
        (check_regression revs ident now dep reg (check_deploy revs ident dep (check_tree ident)))
