-- ===== src/Scenario/Pointer.antt =====
-- How scripts/deploy_scenario.py settles a scenario that was verified, and what --resume does.
use data_migration_tool.Prelude.{◌≡◌, refl, inl, inr, true, false, some, [], Bool-cases}
use data_migration_tool.Prelude.Text.{Text}
use data_migration_tool.Scenario.Dict.{look, put, look-put}
use data_migration_tool.Scenario.Registry.{
  State, Pending, Pointer, registered, given, settle_entry, finalize_scenario-some,
}
use data_migration_tool.Scenario.Mint.{
  World, Store, Args, finished, checked, settle, conclude, save_state, look_up, is_registered,
  verify_and_finalize, resume_scenario, main,
}

-- the pointer at a settled scenario
abbrev pub pointer_at : Text → Pending → Pointer
pointer_at name e = record {
  current_scenario = some name;
  scenario_id = some e.scenario_id;
  seed_sha256 = some e.seed_sha256;
  target = some e.target;
  created = some e.created;
}

pub settle_entry_kept :
    (s : State) (name : Text) (e : Pending)
    → e.keep_pointer ≡ true
    → (settle_entry s name e).0.pointer ≡ s.pointer
unfolding settle_entry
settle_entry_kept s name e h = rw h refl

pub settle_entry_moved :
    (s : State) (name : Text) (e : Pending)
    → e.keep_pointer ≡ false
    → (settle_entry s name e).0.pointer ≡ pointer_at name e
unfolding settle_entry
settle_entry_moved s name e h = rw h refl

-- the scenario is the current one, or stands among the minted ones beside an unchanged pointer
pub data Settled (before : State) (name : Text) (e : Pending) (s : State) : Type 0 where
  current : e.keep_pointer ≡ false → s.pointer ≡ pointer_at name e → Settled before name e s
  on_the_side :
      e.keep_pointer ≡ true
      → s.pointer ≡ before.pointer
      → look s.minted_scenarios name
        ≡ some (record {
          scenario_id = e.scenario_id;
          seed_sha256 = e.seed_sha256;
          target = e.target;
          created = e.created;
        })
      → Settled before name e s

settle_entry-minted_scenarios :
    (s : State) (name : Text) (e : Pending)
    → e.keep_pointer ≡ true
    → (settle_entry s name e).0.minted_scenarios
      ≡ put name
          (record {
            scenario_id = e.scenario_id;
            seed_sha256 = e.seed_sha256;
            target = e.target;
            created = e.created;
          })
          s.minted_scenarios
unfolding settle_entry
settle_entry-minted_scenarios s name e h = rw h refl

pub settle_entry-Settled :
    (s : State) (name : Text) (e : Pending) → Settled s name e (settle_entry s name e).0
settle_entry-Settled s name e = elim (Bool-cases e.keep_pointer) [
  | inr k ↦ current k (settle_entry_moved s name e k)
  | inl k ↦
      on_the_side k (settle_entry_kept s name e k)
        (rw (settle_entry-minted_scenarios s name e k) (look-put name _ s.minted_scenarios))
]

pub resumed :
    (w : World) (st : Store) (name : Text) (e : Pending)
    → look st.file.pending_scenarios name ≡ some e
    → e.status ≡ registered
    → resume_scenario w name st
      ≡ settle st.file name (look_up w st.done e.target name e.scenario_id) st
unfolding resume_scenario verify_and_finalize is_registered
resumed w st name e l r = rw (l, resume_scenario, r, verify_and_finalize, l) refl

pub settled_clean :
    (st : Store) (name : Text) (e : Pending)
    → look st.file.pending_scenarios name ≡ some e
    → settle st.file name (checked []) st
      ≡ (finished, save_state (settle_entry st.file name e).0 st)
unfolding settle conclude
settled_clean st name e l = rw (finalize_scenario-some st.file name e l, settle, conclude) refl

pub main_resume :
    (w : World) (a : Args) (st : Store) (name : Text)
    → given a.resume ≡ some name
    → main w a st ≡ resume_scenario w name st
unfolding main
main_resume w a st name h = rw (h, main) refl
