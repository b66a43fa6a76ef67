-- ===== src/Scenario/Mint.antt =====
-- scripts/deploy_scenario.py: the checks against the database, `verify_and_finalize` and `main`. What the
-- database and the insert script answer depends on what was done before.
use data_migration_tool.Prelude.{
  ℕ, zero, suc, Bool, true, false, not, ◌&&◌, ◌||◌, Option, none, some, List, [], ◌∷◌, ◌++◌,
  nat_beq, if◌then◌else◌,
}
use data_migration_tool.Prelude.Text.{Text, text_eq}
use data_migration_tool.Scenario.Dict.{look, has}
use data_migration_tool.Scenario.Name.{Moment, new_scenario_name}
use data_migration_tool.Scenario.Registry.{
  State, Status, registered, insert_failed, rejected_duplicates, given, name_clash,
  register_pending, mark_pending, finalize_scenario,
}

pub data Event : Type 0 where
  -- target, name and id of the committed row
  created_row : Text → Text → ℕ → Event
  saved : State → Event
  -- target, name and exit code of the insert script
  inserted : Text → Text → ℕ → Event

-- the latest event first
abbrev pub History : Type 0
History = List Event

-- `none` stands for a database or connection error
pub record World : Type 0 where
  pub now : Moment
  pub created : Text  -- the time of registration
  pub sha : Text
  pub connects : History → Text → Bool
  pub scenario_count : History → Text → Text → Option ℕ
  pub get_or_create : History → Text → Text → Option (Option ℕ × ℕ)  -- x_error_code, x_scenario_id
  pub scenario_id : History → Text → Text → Option (Option ℕ)
  pub stg_tables : History → Text → Option (List Text)
  pub row_count : History → Text → Text → ℕ → Option ℕ
  pub duplicate_groups : History → Text → Text → ℕ → Option ℕ
  pub insert : History → Text → Text → ℕ

pub record Store : Type 0 where
  pub file : State
  pub done : History

pub data End : Type 0 where
  finished : End  -- exit code 0
  refused : End  -- sys.exit with a text: exit code 1
  raised : End  -- a database or connection error, or a missing key

unfoldable pub save_state : State → Store → Store
save_state s st = record { file = s; done = saved s ∷ st.done }

pub record Args : Type 0 where
  pub target : Text
  pub force : Bool
  pub check_only : Bool
  pub keep_pointer : Bool
  pub expect_from : Option Text
  pub resume : Option Text

-- the duplicate check has answered
unfoldable pub conclude : State → Text → List (Text × ℕ × ℕ) → Store → End × Store
unfolding mark_pending finalize_scenario save_state
conclude s name [] st = elim (finalize_scenario s name) [
  | none ↦ (raised, st)
  | some (s', copied_from) ↦ (finished, save_state s' st)
]
conclude s name (p ∷ ps) st = elim (mark_pending s name rejected_duplicates) [
  | none ↦ (raised, st)
  | some s' ↦ (refused, save_state s' st)
]

-- what stands in the database under the registered scenario
pub data Found : Type 0 where
  lost : Found  -- an error on the way
  unfit : Found  -- another id, or no rows
  checked : List (Text × ℕ × ℕ) → Found

unfoldable pub same_id : Option ℕ → ℕ → Bool
same_id none sid = false
same_id (some n) sid = nat_beq n sid

unfoldable pub settle : State → Text → Found → Store → End × Store
unfolding conclude
settle s name lost st = (raised, st)
settle s name unfit st = (refused, st)
settle s name (checked ps) st = conclude s name ps st

-- how create_scenario_row ends: an error, a RuntimeError, or the id of the row
pub data Row : Type 0 where
  broke unregistered : Row
  created_id : ℕ → Row

abbrev is_none : Option Text → Bool
is_none none = true
is_none (some t) = false

unfoldable pub is_registered : Status → Bool
is_registered registered = true
is_registered _ = false

unfoldable pub expects : Args → State → Bool
unfolding given
expects a s = elim (given a.expect_from) [ none ↦ true | some t ↦ has s.expected_outcomes t ]

module _ (w : World) where
  -- the tables among these with rows of the scenario, and how many
  unfoldable pub counts_in : History → Text → ℕ → List Text → Option (List (Text × ℕ))
  counts_in h target sid [] = some []
  counts_in h target sid (t ∷ ts) = elim (w.row_count h target t sid) [
    | none ↦ none
    | some n ↦ elim (counts_in h target sid ts) [
      | none ↦ none
      | some rest ↦ some (if nat_beq n 0 then rest else (t, n) ∷ rest)
    ]
  ]

  unfoldable pub stg_row_counts : History → Text → ℕ → Option (List (Text × ℕ))
  unfolding counts_in
  stg_row_counts h target sid = elim (w.stg_tables h target) [
    | none ↦ none
    | some ts ↦ counts_in h target sid ts
  ]

  -- a table without rows of the scenario is not grouped
  unfoldable pub table_duplicates : History → Text → ℕ → Text → Option (List (Text × ℕ × ℕ))
  table_duplicates h target sid t = elim (w.row_count h target t sid) [
    | none ↦ none
    | some n ↦ if nat_beq n 0 then some [] else elim (w.duplicate_groups h target t sid) [
      | none ↦ none
      | some g ↦ some (if nat_beq g 0 then [] else (t, g, n) ∷ [])
    ]
  ]

  unfoldable pub duplicates_in : History → Text → ℕ → List Text → Option (List (Text × ℕ × ℕ))
  unfolding table_duplicates
  duplicates_in h target sid [] = some []
  duplicates_in h target sid (t ∷ ts) = elim (table_duplicates h target sid t) [
    | none ↦ none
    | some ps ↦ elim (duplicates_in h target sid ts) [ none ↦ none | some rest ↦ some (ps ++ rest) ]
  ]

  unfoldable pub verify_no_duplicates : History → Text → ℕ → Option (List (Text × ℕ × ℕ))
  unfolding duplicates_in
  verify_no_duplicates h target sid = elim (w.stg_tables h target) [
    | none ↦ none
    | some ts ↦ duplicates_in h target sid ts
  ]

  unfoldable pub look_up : History → Text → Text → ℕ → Found
  unfolding same_id stg_row_counts verify_no_duplicates
  look_up h target name sid =
      if not (w.connects h target) then lost else elim (w.scenario_id h target name) [
        | none ↦ lost
        | some row ↦ if not (same_id row sid) then unfit else elim (stg_row_counts h target sid) [
          | none ↦ lost
          | some [] ↦ unfit
          | some (r ∷ rs) ↦ elim (verify_no_duplicates h target sid) [
            | none ↦ lost
            | some ps ↦ checked ps
          ]
        ]
      ]

  unfoldable pub verify_and_finalize : State → Text → Store → End × Store
  unfolding look_up settle
  verify_and_finalize s name st = elim (look s.pending_scenarios name) [
    | none ↦ (raised, st)
    | some e ↦ settle s name (look_up st.done e.target name e.scenario_id) st
  ]

  -- a scenario that already holds rows is refused
  unfoldable pub checked_row : History → Text → ℕ → Row
  unfolding stg_row_counts
  checked_row h target sid = elim (stg_row_counts h target sid) [
    | none ↦ broke
    | some [] ↦ created_id sid
    | some (r ∷ rs) ↦ unregistered
  ]

  unfoldable pub create_scenario_row : Text → Text → Store → Row × Store
  unfolding checked_row
  create_scenario_row target name st = elim (w.get_or_create st.done target name) [
    | none ↦ (broke, st)
    | some (none, sid) ↦ (unregistered, st)
    | some (some (suc err), sid) ↦ (unregistered, st)
    | some (some zero, sid) ↦
        let st' = record st { done = created_row target name sid ∷ st.done } in
        (checked_row st'.done target sid, st')
  ]

  -- the insert script ran into the registered scenario
  unfoldable pub after_insert : State → Text → ℕ → Store → End × Store
  unfolding mark_pending save_state verify_and_finalize
  after_insert s name (suc rc) st = elim (mark_pending s name insert_failed) [
    | none ↦ (raised, st)
    | some s' ↦ (refused, save_state s' st)
  ]
  after_insert s name zero st = verify_and_finalize s name st

  unfoldable pub register_and_insert : Args → State → Text → Row × Store → End × Store
  unfolding register_pending save_state after_insert
  register_and_insert a s name (broke, st) = (raised, st)
  register_and_insert a s name (unregistered, st) = (refused, st)
  register_and_insert a s name (created_id sid, st) =
      let s' = register_pending s name sid w.sha a.target w.created a.keep_pointer a.expect_from in
      let st' = save_state s' st in
      let rc = w.insert st'.done a.target name in
      after_insert s' name rc (record st' { done = inserted a.target name rc ∷ st'.done })

  -- whether the name is in use: in the file, or else in the database; `none` is an error
  unfoldable pub clashes : Args → State → Text → History → Option Bool
  unfolding name_clash
  clashes a s name h =
      if name_clash s name
      then some true
      else if not (w.connects h a.target)
      then none
      else elim (w.scenario_count h a.target name) [
        | none ↦ none
        | some n ↦ some (not (nat_beq n 0))
      ]

  unfoldable pub mint : Args → State → Text → Store → End × Store
  unfolding clashes create_scenario_row register_and_insert
  mint a s name st = elim (clashes a s name st.done) [
    | none ↦ (raised, st)
    | some true ↦ (refused, st)
    | some false ↦
        if w.connects st.done a.target
        then register_and_insert a s name (create_scenario_row a.target name st)
        else (raised, st)
  ]

  unfoldable pub resume_scenario : Text → Store → End × Store
  unfolding is_registered verify_and_finalize
  resume_scenario name st = elim (look st.file.pending_scenarios name) [
    | none ↦ (refused, st)
    | some e ↦ if is_registered e.status then verify_and_finalize st.file name st else (refused, st)
  ]

  unfoldable pub is_unchanged : Args → State → Bool
  unfolding given
  is_unchanged a s =
      not (is_none (given s.pointer.current_scenario))
      && elim s.pointer.seed_sha256 [ none ↦ false | some sha ↦ text_eq w.sha sha ]
      && not a.force

  unfoldable pub main : Args → Store → End × Store
  unfolding given resume_scenario expects is_unchanged mint
  main a st = elim (given a.resume) [
    | some name ↦ resume_scenario name st
    | none ↦
        if not (expects a st.file)
        then (refused, st)
        else if a.check_only || is_unchanged a st.file
        then (finished, st)
        else mint a st.file (new_scenario_name w.now) st
  ]
