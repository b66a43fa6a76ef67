-- ===== src/GitSync.antt =====
-- scripts/dmt_db_git_sync.py: the tracked database objects, with the files of git that hold them.
-- Normalize is the form in which two texts are compared, Sync the run itself.
pub mod Normalize
pub mod Sync
pub mod LineEnds
pub mod Pulled
mod Tests
use data_migration_tool.Prelude.{List, [], ◌∷◌}
use data_migration_tool.Prelude.Text.{Text, codes}

-- the object types of MANIFEST
pub data ObjectType : Type 0 where
  a_view a_package : ObjectType

pub record Tracked : Type 0 where
  pub name : Text
  pub object_type : ObjectType
  pub path : Text

abbrev pub manifest : List Tracked
manifest =
    record {
      name = codes "DMT_V_CEMLI_TFM_TABLES";
      object_type = a_view;
      path = codes "db/views/dmt_v_cemli_tfm_tables.sql";
    }
    ∷ record {
      name = codes "DMT_RECORD_DETAIL_V";
      object_type = a_view;
      path = codes "db/views/dmt_record_detail_v.sql";
    }
    ∷ record {
      name = codes "DMT_OBJECT_DETAIL_V";
      object_type = a_view;
      path = codes "db/views/dmt_object_detail_v.sql";
    }
    ∷ record {
      name = codes "DMT_V_CATALOG_HEALTH";
      object_type = a_view;
      path = codes "db/views/dmt_v_catalog_health.sql";
    }
    ∷ record {
      name = codes "DMT_APEX_PAGE_PKG";
      object_type = a_package;
      path = codes "db/packages/dmt_apex_page_pkg.pks.sql";
    }
    ∷ []
