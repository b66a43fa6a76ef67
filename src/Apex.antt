-- ===== src/Apex.antt =====
-- scripts/apex_deploy.py: the import of the committed application under the shared-database deploy rule.
-- SQLcl is an answer: its return code and what it prints; that it is found and started is taken for granted.
pub mod Alias
pub mod Imported
mod Tests
use data_migration_tool.Prelude.{
  ℕ, ◌-◌, String, Bool, true, false, not, ◌&&◌, ◌||◌, Option, none, some, List, [], ◌∷◌, map,
  nat_beq, if◌then◌else◌, is_empty, any,
}
use data_migration_tool.Prelude.Text.{Text, codes, has_suffix}
use data_migration_tool.Regression.Rows.{contains}
use data_migration_tool.Deploy.{Exit, code, out_of_fuel}
use data_migration_tool.Guard

-- data.replace(b"\r\n", b"\n"), one character ahead
unfoldable pub to_lf : Text → Text
to_lf [] = []
to_lf (c ∷ []) = c ∷ []
to_lf (c ∷ (d ∷ s)) =
    let rest = to_lf (d ∷ s) in if nat_beq c b'\r' && nat_beq d b'\n' then rest else c ∷ rest

-- the files of the source, by name: only .apx files are rewritten
unfoldable pub stage_lf : List (Text × Text) → List (Text × Text)
unfolding has_suffix to_lf
stage_lf files = map (λ f. if has_suffix (codes ".apx") f.0 then (f.0, to_lf f.1) else f) files

-- where the SQLcl launcher is: the override, `sql` on the PATH, or the known install
unfoldable pub find_sqlcl : Option Text → Option Text → Text → (Text → Bool) → Option Text
find_sqlcl override on_path fallback exists =
    let known : Option Text = (if exists fallback then some fallback else none) in
    let second : Option Text = elim on_path [
      | none ↦ known
      | some p ↦ if is_empty p then known else some p
    ] in
    elim override [
      | none ↦ second
      | some o ↦ if not (is_empty o) && exists o then some o else second
    ]

pub record Answer : Type 0 where
  pub rc : ℕ
  pub out : Text

-- rc == 0, and none of these marks in the output
unfoldable pub is_ok : List String → Answer → Bool
unfolding contains
is_ok marks a = nat_beq a.rc 0 && not (any (λ m. contains (codes m) a.out) marks)

unfoldable pub import_ok : Answer → Bool
unfolding is_ok
import_ok a = is_ok ("ORA-" ∷ "APEXLANG-" ∷ []) a

unfoldable pub alias_ok : Answer → Bool
unfolding is_ok
alias_ok a = is_ok ("ORA-" ∷ "PLS-" ∷ []) a

pub record World : Type 0 where
  pub app_file : Bool  -- application.apx is there
  pub guard_world : Guard.World
  pub import_answer : Answer
  pub alias_answer : Answer
  pub after : Guard.View

-- the exit code, and whether the alias was re-pointed
unfoldable pub import_and_alias : World → ℕ × Bool
unfolding import_ok alias_ok
import_and_alias w =
    if not (import_ok w.import_answer)
    then (2, false)
    else if alias_ok w.alias_answer
    then (0, true)
    else (2, false)

-- the importer has run
unfoldable pub check_after : World → ℕ → ℕ
check_after w rc = if nat_beq rc 0 && not (Guard.assert_no_invalid w.after) then 4 else rc

-- the exit code, and whether the importer was called
unfoldable pub do_import : World → Option ℕ → Exit × Bool
unfolding import_and_alias check_after
do_import w guard_timeout_s =
    if not w.app_file
    then (code 2, false)
    else elim (Guard.wait_until_no_dmt_jobs w.guard_world guard_timeout_s none) [
      | none ↦ (out_of_fuel, false)
      | some o ↦
          if o.proceed then (code (check_after w (import_and_alias w).0), true) else (code 3, false)
    ]

-- the exit code of an export that left so many application.apx files
unfoldable pub do_export : Answer → ℕ → ℕ
do_export a produced = if not (nat_beq a.rc 0) || nat_beq produced 0 then 2 else 0
