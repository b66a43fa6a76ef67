-- ===== src/Promote/Tests.antt =====
-- A promotion with no evidence on file, and the order of the seeds.
use data_migration_tool.Prelude.{
  ◌*◌, ◌≡◌, refl, ◌⊎◌, Bool, true, false, none, some, [], ◌∷◌, ◌++◌, ltb, if◌then◌else◌,
}
use data_migration_tool.Prelude.Text.{Text, codes, text_eq, has_prefix, is_space, split_on}
use data_migration_tool.Gate.Evidence.{null, num, text, Evidence, loaded}
use data_migration_tool.Gate.Paths.{Identity}
use data_migration_tool.Guard
use data_migration_tool.Prefix.Issued.{local}
use data_migration_tool.Regression.Issue.{after}
use data_migration_tool.Promote.State.{
  World, State, done, updated_main, gate_checked, undecided, approved,
}
use data_migration_tool.Promote.Stages.{stage_deploy_prod}
use data_migration_tool.Promote.Merge.{Args, promote, main, stage_merge}
use data_migration_tool.Promote.Recorded.{PrefixUnique, stage_regression_local-PrefixUnique}
use data_migration_tool.Gate.Evidence.{get, truthy, is_zero, regression_verdict_passes, show}
use data_migration_tool.Promote.Stages.{
  stage_regression_local, sync_prefix, run_regression, regression_entry, with_unique_prefix,
  assert_prefix_unique, record_evidence,
}
use data_migration_tool.Promote.State.{ran_regression, synced_prefix}
use data_migration_tool.Promote.Keeps.{Ordered}
use data_migration_tool.Promote.Order.{main-Ordered}
use data_migration_tool.Promote.Permitted.{
  PromotableFile, deploy_prod-Promotable, Review, stage_merge-Review,
}
use data_migration_tool.Promote.Seeds.{sql_name, listed_seed, listed_seeds, merge_order, seed_order}

abbrev head : Identity
head = record {
  commit = "c0ffee0123";
  tree = "7ree";
  code_tree = some "hash";
  dirty = false;
  dirty_files = [];
}

abbrev idle : Guard.View
idle = record {
  connects = true;
  jobs = Guard.rows [];
  runs = Guard.rows [];
  objects = Guard.rows [];
}

abbrev world : World
world = record {
  revs = λ v. none;
  show_path = λ t. "path";
  identity = λ h. head;
  now = λ h. 1000;
  stamp_now = λ h. null;
  terminal = record { is_tty = some false; typed = none };
  who = "agent";
  guard_world = λ t h. record { check = λ n. idle; start = 0; clock = λ n. n * 20 };
  view = λ t h. idle;
  apex_rc = λ t h. num 0;
  config_rc = λ t h. num 0;
  sync_exits = λ t h. false;
  summary = λ t p h. record {
    rc = num 0;
    run_id = num 412;
    verdict = text "PASS";
    known_failures = 0;
    new_failures = 0;
    known_review = 0;
    new_review = 0;
    pipeline_codes = null;
    started_at = null;
    finished_at = null;
  };
  known_issues_sha = λ h. null;
  run_prefix = λ t v h. some "93402";
  prefix_used_on = λ t p h. [];
  click = λ t v h. record {
    rc = num 0;
    verdict = text "PASS";
    base_url = "http://localhost:8181";
    steps = [];
  };
  pr_state = λ pr n. (false, if ltb n 60 then undecided else approved);
  merge_rc = λ pr h. num 0;
}

abbrev nothing : Evidence
nothing = record { schema = some 1; steps = [] }

abbrev start : State
start = record { store = record { file = loaded nothing; log = [] }; did = [] }

abbrev args : Args
args = record {
  stage = promote;
  pr = some 7;
  agreed = true;
  pipelines = none;
  run_id = null;
  target = local;
  owner_override = none;
}

main-Ordered_example : Ordered (main world args start).1.did
main-Ordered_example = main-Ordered world args start tt

deploy_prod-Promotable_example :
    PromotableFile world.revs head 1000 start.store.file
    ⊎ (((stage_deploy_prod world true none start).0 ≡ done false)
        × ((stage_deploy_prod world true none start).1.did
            ≡ gate_checked false ∷ updated_main ∷ []))
deploy_prod-Promotable_example = deploy_prod-Promotable world start

stage_merge-Review_example :
    (b : Bool) × ((stage_merge world (some 7) 15 start).0 ≡ done b)
    × Review world 7 (15 * 60) [] 0 b
stage_merge-Review_example = stage_merge-Review world 7 15 start refl

abbrev install : Text
install =
    codes "PROMPT seeds" ++ (10 ∷ codes "@@seed/b.sql -- first" ++ (10 ∷ codes "@@seed/gone.sql"))

seeds_in_order :
    seed_order install (codes "seed/a.sql" ∷ codes "seed/b.sql" ∷ [])
    ≡ codes "db/seed/b.sql" ∷ codes "db/seed/a.sql" ∷ []
unfolding seed_order merge_order listed_seeds listed_seed sql_name after split_on text_eq has_prefix
    is_space
seeds_in_order = refl

regression_passes : (stage_regression_local world none start).0 ≡ done true
unfolding stage_regression_local sync_prefix run_regression regression_entry with_unique_prefix
    assert_prefix_unique record_evidence get truthy is_zero regression_verdict_passes text_eq show
regression_passes = refl

stage_regression_local-PrefixUnique_example :
    (is_zero (num 0) ≡ true)
    × (regression_verdict_passes (text "PASS") ≡ true)
    × (truthy (num 412) ≡ true
        → PrefixUnique world local
            (num 412)
            (record start { did = ran_regression local ∷ synced_prefix local ∷ [] }))
stage_regression_local-PrefixUnique_example =
    stage_regression_local-PrefixUnique world none start regression_passes
