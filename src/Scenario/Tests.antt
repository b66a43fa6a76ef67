-- ===== src/Scenario/Tests.antt =====
-- A mint into an empty database, one that loses its connection behind the insert, and its --resume.
use data_migration_tool.Prelude.{
  ap, ◌≡◌, refl, Bool, true, false, not, ◌||◌, none, some, [], ◌∷◌, ◌++◌, if◌then◌else◌,
}
use data_migration_tool.Prelude.Text.{Text, codes, text_eq}
use data_migration_tool.Scenario.Dict.{look, has, put, remove}
use data_migration_tool.Scenario.Name.{Moment, new_scenario_name, stamp, two_digits}
use data_migration_tool.Scenario.Registry.{
  State, Pending, registered, insert_failed, register_pending, finalize_scenario, register_scenario,
  name_clash, is_current, given, settle_entry, carry_over, outcome_source, outcomes_of,
}
use data_migration_tool.Scenario.Mint.{
  End, inserted, saved, created_row, History, World, Store, Args, finished, refused, raised,
  save_state, look_up, main, counts_in, stg_row_counts, table_duplicates, duplicates_in,
  verify_no_duplicates, same_id, conclude, settle, verify_and_finalize, checked_row,
  create_scenario_row, after_insert, register_and_insert, clashes, mint, is_registered,
  resume_scenario, expects, is_unchanged,
}
use data_migration_tool.Scenario.Order.{
  RegisteredFirst, no_event, main-RegisteredFirst, Kept, main-Kept,
}
use data_migration_tool.Scenario.Verified.{rows_here, distinct, Verified}
use data_migration_tool.Scenario.Pointer.{Settled}
use data_migration_tool.Scenario.Moved.{Moved, main-Moved}
use data_migration_tool.Scenario.Resume.{Runs, no_run, one_more, main-Settled}

abbrev noon : Moment
noon = record { year = 2026; month = 10; day = 9; hour = 12; minute = 5; second = 59 }

abbrev name : Text
name = codes "RegressionTest261009120559"

new_name : new_scenario_name noon ≡ name
unfolding new_scenario_name stamp two_digits
new_name = refl

-- after the insertion the database has one row, in one table; before it none
abbrev is_filled : History → Bool
is_filled [] = false
is_filled (inserted t n rc ∷ h) = true
is_filled (e ∷ h) = is_filled h

abbrev world_where : Bool → World
world_where stable = record {
  now = noon;
  created = codes "2026-10-09 12:05";
  sha = codes "5eed";
  connects = λ h t. stable || not (is_filled h);
  scenario_count = λ h t n. some 0;
  get_or_create = λ h t n. some (some 0, 7);
  scenario_id = λ h t n. some (some 7);
  stg_tables = λ h t. some (codes "DMT_PO_STG_TBL" ∷ []);
  row_count = λ h t n sid. some (if is_filled h then 1 else 0);
  duplicate_groups = λ h t n sid. some 0;
  insert = λ h t n. 0;
}

abbrev before : State
before = record {
  pointer = record {
    current_scenario = some (codes "Old");
    scenario_id = some 3;
    seed_sha256 = some (codes "0ld");
    target = some (codes "local");
    created = none;
  };
  expected_outcomes = (codes "Old", (codes "PO", (codes "k", codes "LOADED") ∷ []) ∷ []) ∷ [];
  minted_scenarios = [];
  pending_scenarios = [];
}

abbrev start : Store
start = record { file = before; done = [] }

abbrev plain : Args
plain = record {
  target = codes "local";
  force = false;
  check_only = false;
  keep_pointer = false;
  expect_from = none;
  resume = none;
}

abbrev pending : Pending
pending = record {
  scenario_id = 7;
  seed_sha256 = codes "5eed";
  target = codes "local";
  created = codes "2026-10-09 12:05";
  keep_pointer = false;
  expect_from = none;
  status = registered;
}

abbrev waiting : State
waiting = record before { pending_scenarios = (name, pending) ∷ [] }

abbrev stopped : Store
stopped = record {
  file = waiting;
  done = inserted (codes "local") name 0 ∷ saved waiting ∷ created_row (codes "local") name 7 ∷ [];
}

abbrev settled : State
settled = record before {
  pointer = record {
    current_scenario = some name;
    scenario_id = some 7;
    seed_sha256 = some (codes "5eed");
    target = some (codes "local");
    created = some (codes "2026-10-09 12:05");
  };
  expected_outcomes =
      before.expected_outcomes ++ (name, (codes "PO", (codes "k", codes "LOADED") ∷ []) ∷ []) ∷ [];
}

mint_stops : main (world_where false) plain start ≡ (raised, stopped)
unfolding main mint given expects is_unchanged clashes name_clash is_current has new_scenario_name
    stamp two_digits text_eq create_scenario_row checked_row stg_row_counts counts_in
    register_and_insert register_pending put save_state after_insert verify_and_finalize look
    look_up same_id verify_no_duplicates duplicates_in table_duplicates settle conclude
    finalize_scenario settle_entry register_scenario carry_over outcome_source outcomes_of remove
    resume_scenario is_registered
mint_stops = refl

mint_finishes :
    main (world_where true) plain start
    ≡ (finished, record { file = settled; done = saved settled ∷ stopped.done })
unfolding main mint given expects is_unchanged clashes name_clash is_current has new_scenario_name
    stamp two_digits text_eq create_scenario_row checked_row stg_row_counts counts_in
    register_and_insert register_pending put save_state after_insert verify_and_finalize look
    look_up same_id verify_no_duplicates duplicates_in table_duplicates settle conclude
    finalize_scenario settle_entry register_scenario carry_over outcome_source outcomes_of remove
    resume_scenario is_registered
mint_finishes = refl

abbrev again : Args
again = record plain { resume = some name }

resume_finishes :
    main (world_where true) again stopped
    ≡ (finished, record { file = settled; done = saved settled ∷ stopped.done })
unfolding main mint given expects is_unchanged clashes name_clash is_current has new_scenario_name
    stamp two_digits text_eq create_scenario_row checked_row stg_row_counts counts_in
    register_and_insert register_pending put save_state after_insert verify_and_finalize look
    look_up same_id verify_no_duplicates duplicates_in table_duplicates settle conclude
    finalize_scenario settle_entry register_scenario carry_over outcome_source outcomes_of remove
    resume_scenario is_registered
resume_finishes = refl

-- a second mint in the same second is refused
mint_refused : (main (world_where true) (record plain { force = true }) stopped).0 ≡ refused
unfolding main mint given expects is_unchanged clashes name_clash is_current has new_scenario_name
    stamp two_digits text_eq create_scenario_row checked_row stg_row_counts counts_in
    register_and_insert register_pending put save_state after_insert verify_and_finalize look
    look_up same_id verify_no_duplicates duplicates_in table_duplicates settle conclude
    finalize_scenario settle_entry register_scenario carry_over outcome_source outcomes_of remove
    resume_scenario is_registered
mint_refused = refl

abbrev failed : Store
failed = record {
  file = record before {
    pending_scenarios = (codes "Bad", record pending { status = insert_failed }) ∷ [];
  };
  done = [];
}

main-RegisteredFirst_example :
    RegisteredFirst (world_where false) (main (world_where false) plain start).1.done
main-RegisteredFirst_example = main-RegisteredFirst (world_where false) plain start no_event

main-Moved_example :
    Moved (world_where true) plain start (main (world_where true) plain start).1.file.pointer
main-Moved_example = main-Moved (world_where true) plain start

verified : Verified (world_where true) stopped.done (codes "local") 7 name
verified = record {
  reachable = refl;
  same_row = refl;
  tables = codes "DMT_PO_STG_TBL" ∷ [];
  listed = refl;
  not_empty = rows_here 0 refl;
  unique = (distinct 0 refl refl, tt);
}

main-Kept_example : Kept failed.file (main (world_where true) plain failed).1.file
main-Kept_example = main-Kept (world_where true) plain failed

stopped-Runs : Runs stopped
stopped-Runs =
    let q : (main (world_where false) plain start).1 ≡ stopped =
      ap (λ (r : End × Store). r.1) mint_stops in
    rw q at (one_more (world_where false) plain (no_run {st = start} refl))

Verified-for :
    (e : Pending)
    → look waiting.pending_scenarios name ≡ some e
    → Verified (world_where true) stopped.done e.target e.scenario_id name
unfolding look text_eq
Verified-for e l = let q : e ≡ pending = cc in rw q verified

main-Settled_example :
    ((main (world_where true) again stopped).0 ≡ finished)
    × (e : Pending) × (look waiting.pending_scenarios name ≡ some e)
    × Settled waiting name e (main (world_where true) again stopped).1.file
main-Settled_example =
    main-Settled (world_where true) again stopped (codes "local") name 0
      (saved waiting ∷ created_row (codes "local") name 7 ∷ []) stopped-Runs refl
      (unfold given in refl) Verified-for
