-- ===== src/Guard/Tests.antt =====
-- The guard at a database that is busy at the first check and idle afterwards.
use data_migration_tool.Prelude.{ℕ, zero, suc, ◌+◌, ◌*◌, ◌≡◌, refl, true, some, [], ◌∷◌, arith}
use data_migration_tool.Guard.{
  rows, raised, ok, RunRow, View, job, World, Outcome, blockers, is_dmt_job, is_active, round,
  wait_until_no_dmt_jobs, finished_after, waiting,
}
use data_migration_tool.Guard.Waiting.{Decides, Sleeps, FirstIdle, wait-Decides, proceed-FirstIdle}

abbrev old_run : RunRow
old_run = record { run_id = 408; run_status = some "FAILED"; age_seconds = 60 }

abbrev quiet : View
quiet = record {
  connects = true;
  jobs = rows ("DMT_QUEUE_POLLER" ∷ []);
  runs = rows (old_run ∷ []);
  objects = rows [];
}

abbrev busy : View
busy = record quiet { jobs = rows ("DMT_QUEUE_POLLER" ∷ "DMT_WQ_17" ∷ []) }

abbrev soon_idle : World
soon_idle = record {
  check = elim [ zero ↦ busy | suc n ↦ quiet ];
  start = 100;
  clock = λ n. 100 + n * 20;
}

run_found : blockers busy ≡ ok (job "DMT_WQ_17" ∷ [])
unfolding blockers is_dmt_job is_active
run_found = refl

fresh_install :
    blockers (record quiet { runs = raised "ORA-00942: table or view does not exist" }) ≡ ok []
unfolding blockers is_dmt_job
fresh_install = refl

soon_idle-Sleeps : Sleeps soon_idle 20
soon_idle-Sleeps = record {
  positive = omega arith;
  begins = omega arith;
  advances = λ n. omega arith;
}

abbrev waited : Outcome
waited = record {
  proceed = true;
  log = waiting 1 0 (job "DMT_WQ_17" ∷ []) ∷ finished_after 20 ∷ [];
}

waits_once : wait_until_no_dmt_jobs soon_idle (some 2700) (some 20) ≡ some waited
unfolding wait_until_no_dmt_jobs round blockers is_dmt_job is_active
waits_once = refl

wait-Decides_example :
    (o : Outcome) × (wait_until_no_dmt_jobs soon_idle (some 2700) (some 20) ≡ some o)
    × Decides soon_idle 2700 0 o.proceed
wait-Decides_example = wait-Decides soon_idle 2700 20 soon_idle-Sleeps

proceed-FirstIdle_example : (k : ℕ) × FirstIdle soon_idle 2700 0 k
proceed-FirstIdle_example =
    proceed-FirstIdle soon_idle 2700 20 waited soon_idle-Sleeps waits_once refl
