-- ===== src/Scenario/Order.antt =====
-- Register first, then insert: the order of what a run of scripts/deploy_scenario.py does.
use data_migration_tool.Prelude.{◌≢◌, ℕ, ◌≡◌, refl, some, [], ◌∷◌}
use data_migration_tool.Prelude.Text.{Text}
use data_migration_tool.Scenario.Dict.{look, look-put, look-put_at}
use data_migration_tool.Scenario.Lifecycle.{
  ⟶*-expected_outcomes, ⟶*-rejected, ◌⟶◌, registers, marks, settles, ◌⟶*◌, here, after, ⟶*-trans,
}
use data_migration_tool.Scenario.Registry.{
  Expected, State, Pending, registered, register_pending, finalize_scenario-some, mark_pending-some,
}
use data_migration_tool.Scenario.Mint.{
  created_row, saved, inserted, History, World, Store, save_state, Args, main,
}
use data_migration_tool.Scenario.Steps.{filled, Closed, main-P}

-- Behind every insertion stand the saved file, with the scenario REGISTERED in it, and the committed row;
-- before that the database had no scenario of that name. The latest event is in front.
pub data RegisteredFirst (w : World) : History → Type 0 where
  no_event : RegisteredFirst w []
  a_row :
      {target name : Text} {sid : ℕ} {h : History}
      → RegisteredFirst w h
      → RegisteredFirst w (created_row target name sid ∷ h)
  a_file : {s : State} {h : History} → RegisteredFirst w h → RegisteredFirst w (saved s ∷ h)
  an_insertion :
      {target name : Text} {sid rc : ℕ} {s : State} {h : History} (e : Pending)
      → w.scenario_count h target name ≡ some 0
      → look s.pending_scenarios name ≡ some e
      → e.status ≡ registered
      → e.scenario_id ≡ sid
      → RegisteredFirst w h
      → RegisteredFirst w (inserted target name rc ∷ saved s ∷ created_row target name sid ∷ h)

registers_first : (w : World) → Closed w (λ st. RegisteredFirst w st.done)
unfolding save_state filled register_pending
registers_first w = record {
  on_mark = λ st name e status p l r. a_file p;
  on_settle = λ st name e p l r f. a_file p;
  on_create = λ st target name sid p. a_row p;
  on_fill = λ a st name sid p new n.
      an_insertion _ n (look-put name _ st.file.pending_scenarios) refl refl p;
}

-- A run inserts records only into a scenario that it has just committed and saved as REGISTERED, with the
-- same id, and whose name the database did not have before.
pub main-RegisteredFirst :
    (w : World) (a : Args) (st : Store)
    → RegisteredFirst w st.done
    → RegisteredFirst w (main w a st).1.done
main-RegisteredFirst w a st p =
    main-P w (λ st. RegisteredFirst w st.done) (registers_first w) a st p

one : {s t u : State} → s ⟶* t → t ⟶ u → s ⟶* u
one p q = ⟶*-trans p (after q here)

follows : (w : World) (s : State) → Closed w (λ st. s ⟶* st.file)
unfolding save_state filled
follows w s = record {
  on_mark = λ st name e status p l r.
      one p (marks name e status l r (mark_pending-some st.file name status e l));
  on_settle =
      λ st name e p l r f. one p (settles name e _ l r (finalize_scenario-some st.file name e l));
  on_create = λ st target name sid p. p;
  on_fill = λ a st name sid p new n.
      one p (registers name sid w.sha a.target w.created a.keep_pointer a.expect_from new refl);
}

-- A run changes the state file by steps of the scenario's life only.
pub main-⟶* : (w : World) (a : Args) (st : Store) → st.file ⟶* (main w a st).1.file
main-⟶* w a st = main-P w (λ t. st.file ⟶* t.file) (follows w st.file) a st here

-- The expected outcomes of a scenario stay as they are, and so does the entry of one that failed.
pub record Kept (s t : State) : Type 0 where
  pub outcomes :
      (name : Text) (o : Expected)
      → look s.expected_outcomes name ≡ some o
      → look t.expected_outcomes name ≡ some o
  pub failures :
      (name : Text) (e : Pending)
      → look s.pending_scenarios name ≡ some e
      → e.status ≢ registered
      → look t.pending_scenarios name ≡ some e

-- No run overwrites or removes expected outcomes that are in the file, or the entry of a scenario whose
-- insert failed or that was rejected.
pub main-Kept : (w : World) (a : Args) (st : Store) → Kept st.file (main w a st).1.file
main-Kept w a st =
    let steps = main-⟶* w a st in
    record {
      outcomes = λ name o h. ⟶*-expected_outcomes name o steps h;
      failures = λ name e h bad. ⟶*-rejected name e steps h bad;
    }

-- The last event is an insertion only where the run stopped behind it, and then the scenario is still
-- REGISTERED in the file, for the same database.
pub record Recoverable (st : Store) : Type 0 where
  pub last_insertion :
      (target name : Text) (rc : ℕ) (h : History)
      → st.done ≡ inserted target name rc ∷ h
      → (e : Pending) × (look st.file.pending_scenarios name ≡ some e)
        × (e.status ≡ registered)
        × (e.target ≡ target)

pub same_insertion :
    {t u m n : Text} {i j : ℕ} {g h : History}
    → ◌≡◌ {A = History} (inserted t m i ∷ g) (inserted u n j ∷ h)
    → (t ≡ u) × (m ≡ n)
same_insertion q = (cc, cc)

recovers : (w : World) → Closed w Recoverable
unfolding save_state filled register_pending
recovers w = record {
  on_mark = λ st name e status p l r. record { last_insertion = λ t n rc h q. absurd (cc) };
  on_settle = λ st name e p l r f. record { last_insertion = λ t n rc h q. absurd (cc) };
  on_create = λ st target name sid p. record { last_insertion = λ t n rc h q. absurd (cc) };
  on_fill = λ a st name sid p new n. record {
    last_insertion = λ t m rc h q.
        let (to, name_m) = same_insertion q in
        (_, look-put_at name m _ st.file.pending_scenarios name_m, refl, to);
  };
}

-- Every run keeps a scenario that was filled but not yet checked in the file as REGISTERED.
pub main-Recoverable :
    (w : World) (a : Args) (st : Store) → Recoverable st → Recoverable (main w a st).1
main-Recoverable w a st p = main-P w Recoverable (recovers w) a st p
