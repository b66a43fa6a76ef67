-- ===== src/Regression/Waiting/Tests.antt =====
-- A run that a poll misses, then finds at work, then finds completed.
use data_migration_tool.Prelude.{zero, suc, ◌+◌, ◌*◌, ◌≡◌, some, [], ◌∷◌, arith}
use data_migration_tool.Prelude.Text.{codes}
use data_migration_tool.Regression.Waiting.{World, raises, reads, Waited, wait_for_run}
use data_migration_tool.Regression.Waiting.Ends.{Advances, Ends, wait_for_run-Ends}

abbrev world : World
world = record {
  start = 1000;
  poll = elim [
    | zero ↦ raises (codes "DPY-4011")
    | suc n ↦ elim n [
      | zero ↦ reads (codes "RUNNING") ((codes "DONE", 3) ∷ (codes "QUEUED", 1) ∷ [])
      | suc m ↦ reads (codes "COMPLETED") ((codes "DONE", 4) ∷ [])
    ]
  ];
  clock = λ n. 1000 + n * 45;
  later = λ n. 1001 + n * 45;
}

world-Advances : Advances world
world-Advances = record { begins = omega arith; advances = λ n. omega arith }

wait_for_run-Ends_example :
    (r : Waited) × (wait_for_run world 90 20 ≡ some r) × Ends world (1000 + 90 * 60) 0 r.final
wait_for_run-Ends_example = wait_for_run-Ends world 90 20 world-Advances
