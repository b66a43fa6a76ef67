-- ===== src/Apex/Tests.antt =====
-- An import into an idle instance, and a workspace in which an old application holds the alias.
use data_migration_tool.Prelude.{arith, ℕ, ◌*◌, ◌≡◌, refl, true, none, some, List, [], ◌∷◌}
use data_migration_tool.Prelude.Text.{Text, codes, text_eq, upper, has_suffix}
use data_migration_tool.Gate.Evidence.{decimal, decimal_onto}
use data_migration_tool.Apex.{World, to_lf, stage_lf, find_sqlcl, do_import}
use data_migration_tool.Apex.Alias.{free_others, set_alias, repoint_stable_alias}
use data_migration_tool.Apex.Imported.{Import, do_import-Import}
use data_migration_tool.Guard.Waiting.{Sleeps}
use data_migration_tool.Guard

lf_only : to_lf (codes "a\r\nb\rc") ≡ codes "a\nb\rc"
unfolding to_lf
lf_only = refl

staged :
    stage_lf ((codes "p.apx", codes "x\r\n") ∷ (codes "i.png", codes "\r\n") ∷ [])
    ≡ (codes "p.apx", codes "x\n") ∷ (codes "i.png", codes "\r\n") ∷ []
unfolding stage_lf to_lf has_suffix
staged = refl

on_the_path :
    find_sqlcl none (some (codes "/bin/sql")) (codes "C:/sql.exe") (λ p. true)
    ≡ some (codes "/bin/sql")
unfolding find_sqlcl
on_the_path = refl

abbrev workspace : List (ℕ × Text)
workspace = (500, codes "livedmt2") ∷ (501, codes "IMPORTED") ∷ []

repointed :
    repoint_stable_alias 501 workspace ≡ (500, codes "FREED_500") ∷ (501, codes "LIVEDMT2") ∷ []
unfolding repoint_stable_alias free_others set_alias upper text_eq decimal decimal_onto
repointed = refl

abbrev idle : Guard.View
idle = record {
  connects = true;
  jobs = Guard.rows [];
  runs = Guard.rows [];
  objects = Guard.rows [];
}

abbrev world : World
world = record {
  app_file = true;
  guard_world = record { check = λ n. idle; start = 0; clock = λ n. n * 20 };
  import_answer = record { rc = 0; out = codes "done" };
  alias_answer = record { rc = 0; out = codes "LIVEDMT2 now on app 501" };
  after = idle;
}

world-Sleeps : Sleeps world.guard_world 20
world-Sleeps = record { positive = omega arith; begins = omega arith; advances = λ n. omega arith }

do_import-Import_example : Import world 60 (do_import world (some 60))
do_import-Import_example = do_import-Import world (some 60) world-Sleeps
