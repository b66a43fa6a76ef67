-- ===== src/Deploy/Codes.antt =====
-- scripts/dmt_deploy.py, `main` on the code track: `deploy_code` under `run_guarded`, and what its exit
-- codes say.
use data_migration_tool.Prelude.{ℕ, ◌≡◌, true, false, none, List, ◌∷◌}
use data_migration_tool.Prelude.Text.{Text}
use data_migration_tool.Guard.{View, assert_no_invalid, wait_until_no_dmt_jobs}
use data_migration_tool.Guard.Waiting.{Decides, FirstIdle}
use data_migration_tool.Deploy.{Exit, code, escapes, run_guarded}
use data_migration_tool.Deploy.Code.{History, committed, deploy_code}
use data_migration_tool.Deploy.Code.Compiled.{Stopped}
use data_migration_tool.Deploy.Code.File.{Deployed}
use data_migration_tool.Guard
use data_migration_tool.Deploy.Code

module _ (view : History → View) (gw : Guard.World) (w : Code.World) where
  unfoldable pub code_track : List Text → History → Exit × History
  unfolding run_guarded deploy_code
  code_track paths h = run_guarded view gw none (deploy_code w paths) h

  -- How a run over these files ends, from a history on.
  pub data Tracked (paths : List Text) (h : History) : Exit × History → Type 0 where
    refused : Decides gw 2700 0 false → Tracked paths h (code 3, h)
    no_connection : {k : ℕ} → FirstIdle gw 2700 0 k → Tracked paths h (escapes, h)
    failed :
        {k : ℕ} {g : History}
        → FirstIdle gw 2700 0 k
        → Stopped w paths h g
        → Tracked paths h (code 1, g)
    invalid :
        {k : ℕ} {g : History}
        → FirstIdle gw 2700 0 k
        → Deployed w paths h g
        → assert_no_invalid (view (committed ∷ g)) ≡ false
        → Tracked paths h (code 4, committed ∷ g)
    clean :
        {k : ℕ} {g : History}
        → FirstIdle gw 2700 0 k
        → Deployed w paths h g
        → assert_no_invalid (view (committed ∷ g)) ≡ true
        → Tracked paths h (code 0, committed ∷ g)
