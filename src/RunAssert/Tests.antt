-- ===== src/RunAssert/Tests.antt =====
-- A run with one object, and the same run with a record that the list does not show.
use data_migration_tool.Prelude.{◌≡◌, refl, ◌↔◌, some, [], ◌∷◌}
use data_migration_tool.Prelude.Text.{codes, text_eq}
use data_migration_tool.Scenario.Dict.{look, has, put}
use data_migration_tool.RunAssert.{
  View, counts_differ, same_counts, tile_of, displays, tiles_onto, page52, page52_fails, page57,
  resolve_fails, drill_fail, drill_fails, sums, load_fail, load_fails, fails, exit_code,
}
use data_migration_tool.RunAssert.Holds.{RunHolds, exit_code-RunHolds}

abbrev view : View
view = record {
  catalog = (codes "PO", codes "Headers" ∷ []) ∷ [];
  queue_codes = codes "PO" ∷ [];
  work_status = λ c. codes "DONE";
  tile_count = λ c d. some (record { loaded = 2; failed = 0; total = 2 });
  prevalidation_failed = λ c d. 1;
  record_count = λ s. (codes "LOADED", 2) ∷ (codes "FAILED", 1) ∷ [];
  known_subs = codes "Headers" ∷ [];
  detail_duplicates = [];
  catalog_issues = [];
}

clean : exit_code view ≡ 0
unfolding exit_code fails resolve_fails has look displays tiles_onto put page52 tile_of page52_fails
    drill_fail drill_fails page57 same_counts text_eq sums load_fail load_fails
clean = refl

short_list :
    fails (record view { record_count = λ s. (codes "LOADED", 2) ∷ [] })
    ≡ counts_differ
        (codes "PO")
        (codes "Headers")
        (record { loaded = 2; failed = 1; total = 3 })
        (record { loaded = 2; failed = 0; total = 2 })
      ∷ []
unfolding fails resolve_fails has look displays tiles_onto put page52 tile_of page52_fails
    drill_fail drill_fails page57 same_counts text_eq sums load_fail load_fails
short_list = refl

exit_code-RunHolds_example : (exit_code view ≡ 0) ↔ RunHolds view
exit_code-RunHolds_example = exit_code-RunHolds view
