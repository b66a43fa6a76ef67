-- ===== src/Deploy/Table/Once.antt =====
-- What a run of `deploy_table` of scripts/dmt_deploy.py has done when it ends.
use data_migration_tool.Prelude.{◌<◌, ◌≡◌, true, false, List, [], ◌∷◌}
use data_migration_tool.Prelude.Text.{Text}
use data_migration_tool.Deploy.Code.{contents}
use data_migration_tool.Deploy.Table.{
  executed, recorded, committed, History, End, applied, skipped, refused, failed, World,
  strip_slash, statements, is_git_first,
}

module _ (w : World) where
  -- the statements, each accepted after those before it
  pub data Applied : List Text → History → History → Type 0 where
    all_applied : {h : History} → Applied [] h h
    one_applied :
        {s : Text} {ss : List Text} {h g : History}
        → w.accepts h (strip_slash s) ≡ true
        → Applied ss (executed (strip_slash s) ∷ h) g
        → Applied (s ∷ ss) h g

  -- how a run over these two paths ends
  pub data Migrated (create_path migration_path : Text) (h : History) : End × History → Type 0 where
    once :
        {g : History} (create_sql mig_sql : Text)
        → w.has_log h ≡ true
        → w.source create_path ≡ contents create_sql
        → w.source migration_path ≡ contents mig_sql
        → w.log_count h (w.basename migration_path) ≡ 0
        → is_git_first create_sql mig_sql ≡ true
        → Applied (statements mig_sql) h g
        → Migrated create_path migration_path h
            (applied, committed ∷ recorded (w.basename migration_path) ∷ g)
    skip :
        0 < w.log_count h (w.basename migration_path)
        → Migrated create_path migration_path h (skipped, h)
    refuse :
        ((create_sql mig_sql : Text)
          → w.has_log h ≡ true
          → w.source create_path ≡ contents create_sql
          → w.source migration_path ≡ contents mig_sql
          → is_git_first create_sql mig_sql ≡ false)
        → Migrated create_path migration_path h (refused, h)
    -- some of the statements ran, and the migration is not in the log
    broke :
        {ss : List Text} {g : History}
        → Applied ss h g
        → Migrated create_path migration_path h (failed, g)
