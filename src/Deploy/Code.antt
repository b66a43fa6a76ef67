-- ===== src/Deploy/Code.antt =====
-- scripts/dmt_deploy.py: `deploy_code`. The database answers by what was done before; an error of the
-- query for compile errors is not part of it. An act is a call on the script's connection. Oracle itself
-- commits before and after a DDL statement, such as CREATE OR REPLACE, so a rollback takes back the other
-- statements only.
pub mod File
pub mod Compiled
use data_migration_tool.Prelude.{
  ◌+◌, String, inl, inr, Bool, not, ◌||◌, Option, none, some, List, [], ◌∷◌, ◌++◌, if◌then◌else◌,
  is_empty,
}
use data_migration_tool.Prelude.Text.{Text}
use data_migration_tool.Deploy.{End, returns, raises, exits_code, exits_text}
use data_migration_tool.Deploy.Objects.{is_code, has_table_ddl, created_object}
use data_migration_tool.Deploy.Split.{Kind, ScriptError, split_script}

-- _read
pub data Source : Type 0 where
  outside_repo missing : Source
  contents : Text → Source

pub data Act : Type 0 where
  executed : Text → Act
  committed rolled_back : Act

-- the latest act first
abbrev pub History : Type 0
History = List Act

pub record World : Type 0 where
  pub connects : Bool
  pub source : Text → Source
  pub accepts : History → Text → Bool  -- cur.execute does not raise a DatabaseError
  pub compile_errors : History → Text → List Text

-- how far a deploy has come, or how it ended
pub data Progress {ℓ} (A : Type ℓ) : Type ℓ where
  going : A → History → Progress A
  stopped : End → History → Progress A

module _ (w : World) where
  -- a created object with compile errors rolls back and ends with code 1
  unfoldable pub compiled : Option (List String × Text) → History → List Text → Progress (List Text)
  compiled none h made = going made h
  compiled (some (types, name)) h made =
      if is_empty (w.compile_errors h name)
      then going (made ++ name ∷ []) h
      else stopped (exits_code 1) (rolled_back ∷ h)

  -- the statements, with the names of the objects made so far
  unfoldable pub run_statements : List (Kind × Text) → List Text → History → Progress (List Text)
  unfolding created_object compiled
  run_statements [] made h = going made h
  run_statements ((kind, stmt) ∷ stmts) made h =
      if not (w.accepts h stmt)
      then stopped (exits_code 1) (rolled_back ∷ h)
      else elim (compiled (created_object stmt) (executed stmt ∷ h) made) [
        | stopped e g ↦ stopped e g
        | going made' g ↦ run_statements stmts made' g
      ]

  -- the check after the whole file
  unfoldable pub check_made : List Text → History → Progress (Unit {0})
  check_made [] h = going tt h
  check_made (name ∷ names) h =
      if is_empty (w.compile_errors h name)
      then check_made names h
      else stopped (exits_code 1) (rolled_back ∷ h)

  unfoldable pub run_script : List (Kind × Text) → History → Progress (Unit {0})
  unfolding run_statements check_made
  run_script stmts h = elim (run_statements stmts [] h) [
    | stopped e g ↦ stopped e g
    | going made g ↦ check_made made g
  ]

  unfoldable pub deploy_raw : Text → History → Progress (Unit {0})
  unfolding is_code has_table_ddl split_script run_script
  deploy_raw raw h =
      if not (is_code raw) || has_table_ddl raw
      then stopped (exits_text raw) h
      else elim (split_script raw) [
        | inl e ↦ stopped (exits_text raw) h
        | inr stmts ↦ run_script stmts h
      ]

  unfoldable pub deploy_file : Text → History → Progress (Unit {0})
  unfolding deploy_raw
  deploy_file path h = elim (w.source path) [
    | outside_repo ↦ stopped (exits_text path) h
    | missing ↦ stopped (exits_text path) h
    | contents raw ↦ deploy_raw raw h
  ]

  unfoldable pub deploy_files : List Text → History → End × History
  unfolding deploy_file
  deploy_files [] h = (returns, committed ∷ h)
  deploy_files (path ∷ paths) h = elim (deploy_file path h) [
    | stopped e g ↦ (e, g)
    | going u g ↦ deploy_files paths g
  ]

  unfoldable pub deploy_code : List Text → History → End × History
  unfolding deploy_files
  deploy_code paths h = if w.connects then deploy_files paths h else (raises, h)
