-- ===== src/GitSync/Sync.antt =====
-- scripts/dmt_db_git_sync.py: `deployed_text` and `main`. The answers of the data dictionary are the
-- record Schema; the files are a map from paths.
use data_migration_tool.Prelude.{
  ℕ, Bool, false, Option, none, some, List, [], ◌∷◌, ◌++◌, if◌then◌else◌, is_empty,
}
use data_migration_tool.Prelude.Text.{Text, codes, text_eq}
use data_migration_tool.GitSync.{ObjectType, a_view, a_package, Tracked}
use data_migration_tool.GitSync.Normalize.{normalize, read_text}

-- all_views.text and the lines of all_source, by the name of the object
pub record Schema : Type 0 where
  pub owner : Text
  pub view_text : Text → Option Text
  pub source_lines : Text → List Text

unfoldable pub header : Text → Text
header owner =
    codes "-- Deployed on queryapp ATP ("
    ++ (owner ++ codes "). Snapshot of live DB object. Do not hand-edit without deploying.\n")

abbrev pub concat : List Text → Text
concat [] = []
concat (t ∷ ts) = t ++ concat ts

unfoldable pub deployed_text : Schema → Tracked → Option Text
unfolding header
deployed_text s o = elim o.object_type [
  | a_view ↦ elim (s.view_text o.name) [
    | none ↦ none
    | some t ↦ some (
        concat (
          header s.owner
          ∷ codes "CREATE OR REPLACE VIEW "
          ∷ o.name
          ∷ codes " AS\n"
          ∷ t
          ∷ codes "\n/\n"
          ∷ []))
  ]
  | a_package ↦
      if is_empty (s.source_lines o.name)
      then none
      else some (
          concat (
            header s.owner
            ∷ codes "CREATE OR REPLACE "
            ∷ concat (s.source_lines o.name)
            ∷ codes "\n/\n"
            ∷ []))
]

pub data Mode : Type 0 where
  check pull : Mode

-- what stands in each file, if there is one
abbrev pub Files : Type 0
Files = Text → Option Text

unfoldable pub write : Text → Text → Files → Files
unfolding text_eq
write path t files p = if text_eq path p then some t else files p

-- the objects that the schema does not have, the paths that differ, and the files
pub record Report : Type 0 where
  pub missing : List Text
  pub drift : List Text
  pub files : Files

-- a file against the text of the database
unfoldable pub same_source : ObjectType → Option Text → Text → Bool
unfolding normalize read_text
same_source otype none t = false
same_source otype (some f) t = text_eq (normalize otype (read_text f)) (normalize otype t)

unfoldable pub settle : Mode → Tracked → Text → Report → Report
unfolding write same_source
settle pull o t r = record r { files = write o.path t r.files }
settle check o t r =
    if same_source o.object_type (r.files o.path) t
    then r
    else record r { drift = r.drift ++ o.path ∷ [] }

unfoldable pub visit : Mode → Schema → Tracked → Report → Report
unfolding settle deployed_text
visit mode s o r = elim (deployed_text s o) [
  | none ↦ record r { missing = r.missing ++ o.name ∷ [] }
  | some t ↦ settle mode o t r
]

unfoldable pub visit_all : Mode → Schema → List Tracked → Report → Report
unfolding visit
visit_all mode s [] r = r
visit_all mode s (o ∷ os) r = visit_all mode s os (visit mode s o r)

unfoldable pub exit_code : Mode → Report → ℕ
exit_code pull r = 0
exit_code check r = if is_empty r.drift then 0 else 1

-- the report and the exit code
unfoldable pub main : Mode → Schema → List Tracked → Files → Report × ℕ
unfolding visit_all exit_code
main mode s os files =
    let r = visit_all mode s os (record { missing = []; drift = []; files = files }) in
    (r, exit_code mode r)
