-- ===== src/Promote/Stages.antt =====
-- scripts/ci_promote.py: `guarded_deploy`, the regression and click-through runs, and the stages.
use data_migration_tool.Prelude.{
  ℕ, String, Bool, true, false, not, ◌&&◌, Option, none, some, [], ◌∷◌, map, ◌==◌, nat_beq,
  if◌then◌else◌, length, take, is_empty, keep,
}
use data_migration_tool.Prelude.Text.{Text}
use data_migration_tool.Gate.Evidence.{
  Value, null, flag, num, text, texts, Entry, get, put, truthy, is_text, is_zero, step_of,
  regression_verdict_passes,
}
use data_migration_tool.Gate.Paths.{Identity}
use data_migration_tool.Gate.Log.{Store, recorded, log_event, record_step, usable}
use data_migration_tool.Gate.Override.{enforce}
use data_migration_tool.Guard.{Outcome, wait_until_no_dmt_jobs, count_invalid, assert_no_invalid}
use data_migration_tool.Prefix.Issued.{Target, local, atp}
use data_migration_tool.Promote.State.{
  waited, deployed_db, deployed_apex, configured, synced_prefix, ran_regression, ran_clickthrough,
  updated_main, gate_checked, ClickResult, Summary, World, done, Stage, ◌>>=◌, ◌>>◌, pure, stop,
  ask, act, both,
}

abbrev pub target_name : Target → String
target_name local = "local"
target_name atp = "atp"

abbrev pub other_target : Target → Target
other_target local = atp
other_target atp = local

abbrev proceeds : Option Outcome → Bool
proceeds none = false
proceeds (some o) = o.proceed

abbrev pub is_nothing_left : Option ℕ → Bool
is_nothing_left none = false
is_nothing_left (some n) = nat_beq n 0

-- value or default
abbrev or_value : Value → Value → Value
or_value v d = if truthy v then v else d

module _ (w : World) where
  -- the return value of `deploy_db`: no invalid object on a fresh connection
  unfoldable pub deploy_db : Target → Stage Bool
  deploy_db t = do act (deployed_db t); v ← ask (w.view t); pure (is_nothing_left (count_invalid v))

  unfoldable pub deploy_apex : Target → Stage Bool
  deploy_apex t = do act (deployed_apex t); rc ← ask (w.apex_rc t); pure (is_zero rc)

  -- deploy_db and deploy_apex, and the check of the invalid objects whatever they returned
  unfoldable pub deploy_and_check : Target → Stage Bool
  deploy_and_check t = do
    ok ← both (deploy_db t) (deploy_apex t)
    v ← ask (w.view t)
    pure (ok && assert_no_invalid v)

  unfoldable pub guarded_deploy : Target → Stage Bool
  guarded_deploy t = do
    g ← ask (w.guard_world t)
    let idle = proceeds (wait_until_no_dmt_jobs g none none)
    act (waited t idle)
    if idle then deploy_and_check t else pure false

  unfoldable pub stage_runtime_config : Target → Stage Bool
  stage_runtime_config t = do act (configured t); rc ← ask (w.config_rc t); pure (is_zero rc)

  -- gate.record
  unfoldable pub record_evidence : String → Entry → Identity → Stage (Unit {0})
  record_evidence step entry ident s = (
    done tt,
    record s { store = record_step w.show_path step entry ident (w.stamp_now s.did) s.store },
  )

  unfoldable pub stage_deploy_local : Stage Bool
  stage_deploy_local = do
    ident ← ask w.identity
    ok ← both (guarded_deploy local) (stage_runtime_config local)
    record_evidence "deploy_local" (("ok", flag ok) ∷ []) ident
    pure ok

  unfoldable pub sync_prefix : Target → Stage (Unit {0})
  sync_prefix t = do fails ← ask (w.sync_exits t); if fails then stop else act (synced_prefix t)

  unfoldable pub regression_entry : Target → Option String → Summary → Value → Entry
  regression_entry t pipelines m sha =
      ("ok", flag (is_zero m.rc && regression_verdict_passes m.verdict))
      ∷ ("run_id", m.run_id)
      ∷ ("verdict", or_value m.verdict (text "UNKNOWN (no JSON summary)"))
      ∷ ("exit_code", m.rc)
      ∷ ("known_failures", num m.known_failures)
      ∷ ("new_failures", num m.new_failures)
      ∷ ("known_review", num m.known_review)
      ∷ ("new_review", num m.new_review)
      ∷ ("known_issues_file_sha256", sha)
      ∷ (
        "pipelines",
        or_value m.pipeline_codes (elim pipelines [
          | none ↦ text "P2P,O2C,FINANCIALS,PROJECTS,HCM"
          | some p ↦ if p == "" then text "P2P,O2C,FINANCIALS,PROJECTS,HCM" else text p
        ]),
      )
      ∷ ("target", text (target_name t))
      ∷ ("started_at", m.started_at)
      ∷ ("finished_at", m.finished_at)
      ∷ []

  unfoldable pub run_regression : Target → Option String → Stage Entry
  run_regression t pipelines = do
    m ← ask (w.summary t pipelines)
    act (ran_regression t)
    sha ← ask w.known_issues_sha
    pure (regression_entry t pipelines m sha)

  -- the run ids of the other instance that have the run's prefix, if the run has one
  unfoldable pub assert_prefix_unique : Target → Value → Stage Bool
  assert_prefix_unique t run = do
    p ← ask (w.run_prefix t run)
    elim p [
      | none ↦ pure true
      | some q ↦
          if q == ""
          then pure true
          else (do ids ← ask (w.prefix_used_on (other_target t) q); pure (is_empty ids))
    ]

  -- res["ok"] = False where the prefix is not unique
  unfoldable pub with_unique_prefix : Target → Entry → Stage Entry
  with_unique_prefix t res = do
    let run = get res "run_id"
    if truthy run
        then (do
          unique ← assert_prefix_unique t run
          pure (if unique then res else put "ok" (flag false) res))
        else pure res

  unfoldable pub stage_regression_local : Option String → Stage Bool
  stage_regression_local pipelines = do
    ident ← ask w.identity
    sync_prefix local
    ran ← run_regression local pipelines
    res ← with_unique_prefix local ran
    record_evidence "regression" res ident
    pure (truthy (get res "ok"))

  unfoldable pub click_entry : Value → ClickResult → Entry
  click_entry run c =
      ("ok", flag (is_zero c.rc && is_text c.verdict "PASS"))
      ∷ ("run_id", run)
      ∷ ("base_url", text c.base_url)
      ∷ ("exit_code", c.rc)
      ∷ ("verdict", or_value c.verdict (text "UNKNOWN (no JSON result)"))
      ∷ ("steps_total", num (length c.steps))
      ∷ ("steps_passed", num (length (keep (λ x. x.0) c.steps)))
      ∷ ("failed_steps", texts (take 20 (map (λ x. x.1) (keep (λ x. not x.0) c.steps))))
      ∷ []

  unfoldable pub run_clickthrough : Target → Value → Stage Entry
  run_clickthrough t run = do
    c ← ask (w.click t run)
    act (ran_clickthrough t run)
    pure (click_entry run c)

  -- the run id of the recorded regression
  unfoldable pub recorded_run : Store → Value
  recorded_run s = get (step_of (usable s.file).steps "regression") "run_id"

  unfoldable pub click_and_record : Target → String → Value → Identity → Stage Bool
  click_and_record t step run ident = do
    res ← run_clickthrough t run
    record_evidence step res ident
    pure (truthy (get res "ok"))

  unfoldable pub stage_clickthrough_local : Value → Stage Bool
  stage_clickthrough_local run s =
      let ident = w.identity s.did in
      if truthy run
      then click_and_record local "clickthrough_local" run ident s
      else if truthy (recorded_run s.store)
      then click_and_record local "clickthrough_local" (recorded_run s.store) ident s
      else (done false, s)

  unfoldable pub stage_clickthrough_atp : Value → Stage Bool
  stage_clickthrough_atp run =
      if not (truthy run)
      then pure false
      else (do ident ← ask w.identity; click_and_record atp "clickthrough_atp" run ident)

  unfoldable pub stage_test_local : Option String → Stage Bool
  stage_test_local pipelines =
      both stage_deploy_local
        (both (stage_regression_local pipelines) (stage_clickthrough_local null))

  -- gate.enforce, and its answer in the history
  unfoldable pub enforce_gate : String → Option Text → Stage Bool
  enforce_gate stage override s =
      let (ok, store) =
        enforce w.revs (w.identity s.did) (w.now s.did) stage override w.terminal w.who s.store in
      (done ok, record { store = store; did = gate_checked ok ∷ s.did })

  unfoldable pub stage_deploy_prod : Bool → Option Text → Stage Bool
  stage_deploy_prod agreed override = if not agreed then pure false else (do
    act updated_main
    ok ← enforce_gate "deploy-prod" override
    if ok then both (guarded_deploy atp) (stage_runtime_config atp) else pure false)

  unfoldable pub log_regression_atp : Entry → Stage (Unit {0})
  log_regression_atp res s =
      (done tt, record s { store = log_event (recorded "regression_atp" res) s.store })

  unfoldable pub stage_test_prod : Bool → Option String → Stage Bool
  stage_test_prod agreed pipelines = if not agreed then pure false else (do
    sync_prefix atp
    ran ← run_regression atp pipelines
    res ← with_unique_prefix atp ran
    log_regression_atp res
    if not (truthy (get res "run_id")) then pure false else (do
      ct_ok ← stage_clickthrough_atp (get res "run_id")
      pure (truthy (get res "ok") && ct_ok)))
