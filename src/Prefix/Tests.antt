-- ===== src/Prefix/Tests.antt =====
-- The prefix sync on a counter: a sequence that is behind, and two instances that draw and sync.
use data_migration_tool.Prelude.{
  ℕ, Option, List, ◌-◌, ◌≤◌, max, ◌≡◌, refl, ◌⊎◌, true, false, ◌||◌, none, some, [], ◌∷◌, arith,
}
use data_migration_tool.Prelude.Int.{pos}
use data_migration_tool.Prefix.{
  max_used_prefix, next_prefix, World, runs, Db, SeqState, How, sync_prefix_for, ok,
}
use data_migration_tool.Prefix.Laws.{counter, counter-IsSequence}
use data_migration_tool.Prefix.Sync.{at}
use data_migration_tool.Prefix.Forward.{SyncEnds, sync_prefix_for-Ends, sync_prefix_for_lem}
use data_migration_tool.Prefix.Issued.{Below, is_used, next_prefix-fresh, local}
use data_migration_tool.Prefix.Instances.{
  Site, Pod, set_site, synced_site, drawn_site, Issued, IssuedOnce, SyncsFresh, Reach-IssuedOnce,
  here, then_step, draw, sync, reads,
}

abbrev local_runs : List (Option ℕ)
local_runs = some 93401 ∷ none ∷ []

abbrev atp_runs : List (Option ℕ)
atp_runs = some 93399 ∷ []

abbrev used_runs : World
used_runs = record {
  lock_session = true;
  lock_merged = true;
  lock_granted = true;
  sync_session = true;
  on_local = runs local_runs;
  on_atp = runs atp_runs;
}

abbrev behind : Db SeqState
behind = record { seq = at 93400; sessions = 0; locked = false }

aims_after_the_highest : next_prefix local_runs atp_runs ≡ 93402
unfolding next_prefix max_used_prefix
aims_after_the_highest = refl

small : next_prefix local_runs atp_runs ≤ 99999
small = rw aims_after_the_highest (omega arith)

sync_prefix_for-Ends_example :
    SyncEnds (counter true) used_runs behind (sync_prefix_for (counter true) used_runs behind)
sync_prefix_for-Ends_example =
    sync_prefix_for-Ends (counter true) (counter-IsSequence true) used_runs behind refl

sync_prefix_for_lem_example :
    (how : How) × ((sync_prefix_for (counter false) used_runs behind).0
      ≡ ok (pos (max (next_prefix local_runs atp_runs) 93400), how))
    × ((some (sync_prefix_for (counter false) used_runs behind).1.seq)
        ≡ some (at (max (next_prefix local_runs atp_runs) 93400)))
sync_prefix_for_lem_example =
    sync_prefix_for_lem (counter false) (counter-IsSequence false) used_runs local_runs atp_runs
      93400 behind refl refl refl refl refl refl small refl

next_prefix-fresh_example :
    let n = next_prefix local_runs atp_runs in
    Below n local_runs
    × Below n atp_runs
    × ((n ≡ 1) ⊎ (is_used (n - 1) local_runs || is_used (n - 1) atp_runs ≡ true))
next_prefix-fresh_example = next_prefix-fresh local_runs atp_runs

abbrev a_site : ℕ → List (Option ℕ) → Site (counter true)
a_site n rows = record {
  held = record { seq = at n; sessions = 0; locked = false };
  drawn = [];
  rows = rows;
}

abbrev pod : Pod (counter true)
pod = record { on_local = a_site 93390 local_runs; on_atp = a_site 93400 atp_runs }

-- the local sequence is synced and drawn from
abbrev synced_pod : Pod (counter true)
synced_pod = set_site (counter true) local (synced_site (counter true) used_runs pod.on_local) pod

abbrev drawn_pod : Pod (counter true)
drawn_pod = set_site (counter true) local (drawn_site (counter true) synced_pod.on_local) synced_pod

starts : (n : ℕ) (rows : List (Option ℕ)) → Issued (counter true) (a_site n rows)
starts n rows = record { next = n; issues = refl; falls = tt; unlocked = refl }

Reach-IssuedOnce_example :
    IssuedOnce (counter true) drawn_pod
    × SyncsFresh (counter true) (counter-IsSequence true) drawn_pod
Reach-IssuedOnce_example =
    Reach-IssuedOnce (counter true) (counter-IsSequence true) {p = pod} {q = drawn_pod}
      (starts 93390 local_runs, starts 93400 atp_runs)
      (then_step (then_step here (sync local used_runs reads reads)) (draw local))
