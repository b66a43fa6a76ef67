-- ===== src/Scenario/Resume.antt =====
-- --resume of scripts/deploy_scenario.py.
use data_migration_tool.Prelude.{[], ℕ, ◌≡◌, refl, some, ◌∷◌}
use data_migration_tool.Prelude.Text.{Text}
use data_migration_tool.Scenario.Dict.{look}
use data_migration_tool.Scenario.Registry.{Pending, registered, given}
use data_migration_tool.Scenario.Mint.{
  inserted, History, World, Store, Args, finished, save_state, resume_scenario, main,
}
use data_migration_tool.Scenario.Order.{Recoverable, main-Recoverable}
use data_migration_tool.Scenario.Pointer.{
  Settled, settle_entry-Settled, settled_clean, resumed, main_resume,
}
use data_migration_tool.Scenario.Verified.{Verified, look_up_iff}

resume_scenario-finished :
    (w : World) (st : Store) (name : Text) (e : Pending)
    → look st.file.pending_scenarios name ≡ some e
    → e.status ≡ registered
    → Verified w st.done e.target e.scenario_id name
    → ((resume_scenario w name st).0 ≡ finished)
      × Settled st.file name e (resume_scenario w name st).1.file
resume_scenario-finished w st name e l r v =
    let clean = (look_up_iff w st.done e.target e.scenario_id name).1 v in
    rw (resumed w st name e l r, clean, settled_clean st name e l)
      (refl, unfold save_state in settle_entry-Settled st.file name e)

-- any number of runs, each over its own answers, from a store in which nothing was done
pub data Runs : Store → Type 0 where
  no_run : {st : Store} → st.done ≡ [] → Runs st
  one_more : {st : Store} (w : World) (a : Args) → Runs st → Runs (main w a st).1

no_run-Recoverable : (st : Store) → st.done ≡ [] → Recoverable st
no_run-Recoverable st e = record { last_insertion = λ t n rc h q. absurd (cc) }

Runs-Recoverable : {st : Store} → Runs st → Recoverable st
Runs-Recoverable (no_run {st} e) = no_run-Recoverable st e
Runs-Recoverable (one_more {st} w a r) = main-Recoverable w a st (Runs-Recoverable r)

-- Where the last of any number of runs stopped behind the insert, a --resume with that name finishes the
-- scenario as soon as the database shows it verified: exit code 0, and the scenario is the current one, or
-- a minted one beside an unchanged pointer if it was registered with --keep-pointer.
pub main-Settled :
    (w : World) (a : Args) (st : Store) (target name : Text) (rc : ℕ) (h : History)
    → Runs st
    → st.done ≡ inserted target name rc ∷ h
    → given a.resume ≡ some name
    → ((e : Pending)
        → look st.file.pending_scenarios name ≡ some e
        → Verified w st.done e.target e.scenario_id name)
    → ((main w a st).0 ≡ finished)
      × (e : Pending) × (look st.file.pending_scenarios name ≡ some e)
      × Settled st.file name e (main w a st).1.file
main-Settled w a st target name rc h runs last asked v =
    let (e, l, r, t) = (Runs-Recoverable runs).last_insertion target name rc h last in
    rw (main_resume w a st name asked)
      (let (done, s) = resume_scenario-finished w st name e l r (v e l) in (done, e, l, s))
