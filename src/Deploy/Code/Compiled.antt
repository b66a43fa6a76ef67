-- ===== src/Deploy/Code/Compiled.antt =====
-- What a run of `deploy_code` of scripts/dmt_deploy.py has done when it ends.
use data_migration_tool.Prelude.{◌≡◌, ◌⊎◌, some, List, ◌∷◌, ◌++◌}
use data_migration_tool.Prelude.Text.{Text}
use data_migration_tool.Deploy.{End, returns, end_code}
use data_migration_tool.Deploy.Code.{committed, History, World}
use data_migration_tool.Deploy.Code.File.{Deployed, NoCommit}

module _ (w : World) where
  -- A run over these files stops at one of them: the files before it are deployed, and behind them the
  -- script has not called `commit`.
  pub record Stopped (paths : List Text) (h g : History) : Type 0 where
    pub before : List Text
    pub at_file : Text
    pub behind : List Text
    pub files : paths ≡ before ++ at_file ∷ behind
    pub reached : History
    pub done : Deployed w before h reached
    pub not_committed : NoCommit w h g

  abbrev FilesEnd : List Text → History → End × History → Type 0
  FilesEnd paths h r =
      ((g : History) × (r ≡ (returns, committed ∷ g)) × Deployed w paths h g)
      ⊎ ((e : End) × (g : History) × (r ≡ (e, g)) × (end_code e ≡ some 1) × Stopped paths h g)
