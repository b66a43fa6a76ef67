-- ===== src/Deploy.antt =====
-- scripts/dmt_deploy.py: deploying committed code files. Words and Split are the script splitter; here
-- is `run_guarded`, the deploy rule with its exit codes. The guard's wait and the deploy change different
-- parts of the database.
pub mod Words
pub mod Split
pub mod Unit
pub mod Codes
pub mod Comments
pub mod Objects
pub mod Code
pub mod Table
mod Tests
mod FileTests
use data_migration_tool.Prelude.{
  ℕ, Bool, true, false, not, ◌&&◌, Option, none, some, nat_beq, if◌then◌else◌,
}
use data_migration_tool.Prelude.Text.{Text}
use data_migration_tool.Guard.{World, View, wait_until_no_dmt_jobs, assert_no_invalid}

-- how deploy_fn ends: it returns, it raises SystemExit with a code, with none or with a text, or it
-- raises another exception
pub data End : Type 0 where
  returns exits raises : End
  exits_code : ℕ → End
  exits_text : Text → End

-- rc; `none` is an exception that is not caught
unfoldable pub end_code : End → Option ℕ
end_code returns = some 0
end_code exits = some 0
end_code (exits_code n) = some n
end_code (exits_text t) = some 1
end_code raises = none

-- the exit code, an exception that escapes, or the end of the guard's fuel
pub data Exit : Type 0 where
  code : ℕ → Exit
  escapes out_of_fuel : Exit

-- deploy_fn changes the state, and `view` is what a fresh connection shows of it
module _ {S : Type 0} (view : S → View) where
  -- behind deploy_fn
  unfoldable pub check_after : End × S → Exit × S
  unfolding end_code
  check_after (e, s) = elim (end_code e) [
    | none ↦ (escapes, s)
    | some rc ↦ (code (if nat_beq rc 0 && not (assert_no_invalid (view s)) then 4 else rc), s)
  ]

  unfoldable pub run_guarded : World → Option ℕ → (S → End × S) → S → Exit × S
  unfolding check_after
  run_guarded w timeout_s deploy_fn s = elim (wait_until_no_dmt_jobs w timeout_s none) [
    | none ↦ (out_of_fuel, s)
    | some o ↦ if o.proceed then check_after (deploy_fn s) else (code 3, s)
  ]
