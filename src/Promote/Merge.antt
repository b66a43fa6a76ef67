-- ===== src/Promote/Merge.antt =====
-- scripts/ci_promote.py: `stage_merge` and `main`. The merge waits in steps of 30 seconds on fuel: a
-- round for each step and two more are enough.
use data_migration_tool.Prelude.{
  ℕ, zero, suc, ◌+◌, ◌*◌, ◌/◌, String, Bool, true, false, not, ◌&&◌, Option, none, some, leb,
  nat_beq, if◌then◌else◌,
}
use data_migration_tool.Prelude.Text.{Text}
use data_migration_tool.Gate.Evidence.{Value, is_zero}
use data_migration_tool.Prefix.Issued.{Target, local, atp}
use data_migration_tool.Promote.State.{
  merged, changes_requested, approved, undecided, World, Stage, ◌>>=◌, ◌>>◌, pure, stop, ask, act,
  both,
}
use data_migration_tool.Promote.Stages.{
  stage_deploy_local, stage_regression_local, stage_clickthrough_local, stage_clickthrough_atp,
  stage_runtime_config, stage_test_local, stage_deploy_prod, stage_test_prod, enforce_gate,
}

pub data StageName : Type 0 where
  deploy_local runtime_config regression_local clickthrough_local test_local gate merge deploy_prod
        test_prod clickthrough_atp promote :
      StageName

pub record Args : Type 0 where
  pub stage : StageName
  pub pr : Option ℕ
  pub agreed : Bool
  pub pipelines : Option String
  pub run_id : Value
  pub target : Target
  pub owner_override : Option Text

abbrev is_deploy_prod : StageName → Bool
is_deploy_prod deploy_prod = true
is_deploy_prod _ = false

abbrev is_some : Option Text → Bool
is_some none = false
is_some (some t) = true

abbrev is_atp : Target → Bool
is_atp local = false
is_atp atp = true

module _ (w : World) where
  -- approved: the merge through the normal protection
  unfoldable pub merge_approved : ℕ → Stage Bool
  merge_approved pr = do rc ← ask (w.merge_rc pr); act (merged pr); pure (is_zero rc)

  -- `exits` is also the end of the fuel
  unfoldable pub merge_loop : ℕ → ℕ → ℕ → ℕ → Stage Bool
  merge_loop pr deadline zero waited = stop
  merge_loop pr deadline (suc fuel) waited =
      let rest = merge_loop pr deadline fuel (waited + 30) in
      if not (leb waited deadline)
      then pure false
      else if (w.pr_state pr waited).0
      then pure true
      else elim (w.pr_state pr waited).1 [
        | changes_requested ↦ pure false
        | approved ↦ merge_approved pr
        | undecided ↦ if nat_beq waited deadline then pure false else rest
      ]

  -- a pull request of number 0 is none
  unfoldable pub stage_merge : Option ℕ → ℕ → Stage Bool
  stage_merge none wait_min = pure true
  stage_merge (some pr) wait_min =
      if nat_beq pr 0 then pure true else merge_loop pr (wait_min * 60) (wait_min * 60 / 30 + 2) 0

  -- the stages one after the other, until one does not pass
  unfoldable pub run_promote : Args → Stage Bool
  run_promote a = both (stage_test_local w a.pipelines) (
      both (stage_merge a.pr 15)
        (both (stage_deploy_prod w a.agreed none) (stage_test_prod w a.agreed a.pipelines)))

  unfoldable pub run_stage : StageName → Args → Stage Bool
  run_stage deploy_local a = stage_deploy_local w
  run_stage runtime_config a =
      if is_atp a.target && not a.agreed then pure false else stage_runtime_config w a.target
  run_stage regression_local a = stage_regression_local w a.pipelines
  run_stage clickthrough_local a = stage_clickthrough_local w a.run_id
  run_stage test_local a = stage_test_local w a.pipelines
  run_stage gate a = enforce_gate w "gate (check only)" none
  run_stage merge a = stage_merge a.pr 15
  run_stage deploy_prod a = stage_deploy_prod w a.agreed a.owner_override
  run_stage test_prod a = stage_test_prod w a.agreed a.pipelines
  run_stage clickthrough_atp a = stage_clickthrough_atp w a.run_id
  run_stage promote a = run_promote a

  -- whether the script exits with 0; `exits` is an exit with an error
  unfoldable pub main : Args → Stage Bool
  main a =
      if is_some a.owner_override && not (is_deploy_prod a.stage)
      then pure false
      else run_stage a.stage a
