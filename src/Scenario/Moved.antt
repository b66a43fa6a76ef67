-- ===== src/Scenario/Moved.antt =====
-- When a run of scripts/deploy_scenario.py moves the pointer of the state file.
use data_migration_tool.Prelude.{
  ℕ, zero, suc, ◌≡◌, refl, ◌∙◌, inl, inr, true, false, ◌||◌, Option, none, some, [], ◌∷◌,
  Bool-cases, Option-cases,
}
use data_migration_tool.Prelude.Text.{Text}
use data_migration_tool.Scenario.Dict.{look, look-put}
use data_migration_tool.Scenario.Name.{new_scenario_name}
use data_migration_tool.Scenario.Registry.{
  Pending, Pointer, registered, insert_failed, rejected_duplicates, given, register_pending,
  finalize_scenario-some, mark_pending-some,
}
use data_migration_tool.Scenario.Mint.{
  created_row, World, Store, Args, Found, lost, unfit, checked, settle, conclude, save_state,
  look_up, is_registered, verify_and_finalize, resume_scenario, main, after_insert,
  register_and_insert, create_scenario_row, mint, clashes, End, created_id, expects, is_unchanged,
}
use data_migration_tool.Scenario.Steps.{filled, checked_row-cases}
use data_migration_tool.Scenario.Verified.{Verified, look_up_iff}
use data_migration_tool.Scenario.Pointer.{pointer_at, settle_entry_kept, settle_entry_moved}

-- the entry that a mint registers
abbrev pub minted_entry : World → Args → ℕ → Pending
minted_entry w a sid = record {
  scenario_id = sid;
  seed_sha256 = w.sha;
  target = a.target;
  created = w.created;
  keep_pointer = a.keep_pointer;
  expect_from = a.expect_from;
  status = registered;
}

-- A scenario that a run settles, its entry and the store in which it is checked: the entry of the file
-- that --resume names, as the run finds it, or the entry that the run has just registered and filled.
pub data Settles (w : World) (a : Args) (st : Store) : Text → Pending → Store → Type 0 where
  resumes :
      {name : Text} {e : Pending}
      → given a.resume ≡ some name
      → look st.file.pending_scenarios name ≡ some e
      → Settles w a st name e st
  mints :
      {sid : ℕ}
      → given a.resume ≡ none
      → w.get_or_create st.done a.target (new_scenario_name w.now) ≡ some (some 0, sid)
      → Settles w a st
          (new_scenario_name w.now)
          (minted_entry w a sid)
          (filled w a (new_scenario_name w.now) sid st)

-- The pointer is the one of the file, or the one to a scenario that the run settles, that is verified in
-- the store in which the run checks it, and whose entry does not keep the pointer.
pub data Moved (w : World) (a : Args) (st : Store) : Pointer → Type 0 where
  stays : Moved w a st st.file.pointer
  moves :
      {name : Text} {e : Pending} {t : Store}
      → Settles w a st name e t
      → e.keep_pointer ≡ false
      → Verified w t.done e.target e.scenario_id name
      → Moved w a st (pointer_at name e)

equal_to :
    {w : World} {a : Args} {st : Store} {p q : Pointer} → p ≡ q → Moved w a st q → Moved w a st p
equal_to e x = rw e x

module _ (w : World) (a : Args) (st : Store) where
  abbrev MovedBy : End × Store → Type 0
  MovedBy r = Moved w a st r.1.file.pointer

  settle-Moved :
      (name : Text) (e : Pending) (found : Found) (t : Store)
      → t.file.pointer ≡ st.file.pointer
      → look t.file.pending_scenarios name ≡ some e
      → Settles w a st name e t
      → look_up w t.done e.target name e.scenario_id ≡ found
      → MovedBy (settle t.file name found t)
  unfolding settle conclude save_state
  settle-Moved name e lost t p l s f = equal_to p stays
  settle-Moved name e unfit t p l s f = equal_to p stays
  settle-Moved name e (checked (x ∷ xs)) t p l s f =
      rw (mark_pending-some t.file name rejected_duplicates e l, settle, conclude)
        (equal_to p stays)
  settle-Moved name e (checked []) t p l s f =
      rw (finalize_scenario-some t.file name e l, settle, conclude)
        (elim (Bool-cases e.keep_pointer) [
          | inl k ↦ equal_to (settle_entry_kept t.file name e k ∙ p) stays
          | inr k ↦
              equal_to (settle_entry_moved t.file name e k)
                (moves s k ((look_up_iff w t.done e.target e.scenario_id name).0 f))
        ])

  verify-Moved :
      (name : Text) (e : Pending) (t : Store)
      → t.file.pointer ≡ st.file.pointer
      → look t.file.pending_scenarios name ≡ some e
      → Settles w a st name e t
      → MovedBy (verify_and_finalize w t.file name t)
  unfolding verify_and_finalize
  verify-Moved name e t p l s =
      rw (l, verify_and_finalize)
        (settle-Moved name e (look_up w t.done e.target name e.scenario_id) t p l s refl)

  after_insert-Moved :
      (name : Text) (e : Pending) (rc : ℕ) (t : Store)
      → t.file.pointer ≡ st.file.pointer
      → look t.file.pending_scenarios name ≡ some e
      → Settles w a st name e t
      → MovedBy (after_insert w t.file name rc t)
  unfolding after_insert save_state
  after_insert-Moved name e zero t p l s = verify-Moved name e t p l s
  after_insert-Moved name e (suc rc) t p l s =
      rw (mark_pending-some t.file name insert_failed e l, after_insert) (equal_to p stays)

  module _ (minting : given a.resume ≡ none) where
    abbrev new : Text
    new = new_scenario_name w.now

    registered-Moved :
        (sid : ℕ)
        → w.get_or_create st.done a.target new ≡ some (some 0, sid)
        → MovedBy (
            register_and_insert w a st.file new
              (created_id sid, record st { done = created_row a.target new sid ∷ st.done }))
    unfolding register_and_insert filled save_state register_pending
    registered-Moved sid g =
        after_insert-Moved new (minted_entry w a sid) _ (filled w a new sid st) refl
          (look-put new _ st.file.pending_scenarios) (mints minting g)

    created-Moved :
        (answer : Option (Option ℕ × ℕ))
        → w.get_or_create st.done a.target new ≡ answer
        → MovedBy (register_and_insert w a st.file new (create_scenario_row w a.target new st))
    unfolding create_scenario_row register_and_insert
    created-Moved none h = rw (h, create_scenario_row) stays
    created-Moved (some (none, sid)) h = rw (h, create_scenario_row) stays
    created-Moved (some (some (suc err), sid)) h = rw (h, create_scenario_row) stays
    created-Moved (some (some zero, sid)) h =
        rw (h, create_scenario_row)
          (elim (checked_row-cases w (created_row a.target new sid ∷ st.done) a.target sid) [
            | inl c ↦ rw c stays
            | inr (inl c) ↦ rw c stays
            | inr (inr c) ↦ rw c (registered-Moved sid h)
          ])

    mint-Moved : MovedBy (mint w a st.file new st)
    unfolding mint
    mint-Moved = elim (Option-cases (clashes w a st.file new st.done)) [
      | inl h ↦ rw (h, mint) stays
      | inr (true, h) ↦ rw (h, mint) stays
      | inr (false, h) ↦ elim (Bool-cases (w.connects st.done a.target)) [
        | inl c ↦ rw (h, mint, c) (created-Moved _ refl)
        | inr c ↦ rw (h, mint, c) stays
      ]
    ]

  resume-Moved : (name : Text) → given a.resume ≡ some name → MovedBy (resume_scenario w name st)
  unfolding resume_scenario
  resume-Moved name g = elim (Option-cases (look st.file.pending_scenarios name)) [
    | inl h ↦ rw (h, resume_scenario) stays
    | inr (e, h) ↦ elim (Bool-cases (is_registered e.status)) [
      | inl r ↦ rw (h, resume_scenario, r) (verify-Moved name e st refl h (resumes g h))
      | inr r ↦ rw (h, resume_scenario, r) stays
    ]
  ]

  -- A run leaves the five pointer keys of the state file alone, or moves them to one scenario: the one that
  -- --resume names, or the one that the run has minted. That scenario was verified in the databases as
  -- they were when the run checked it, and its entry was not registered with --keep-pointer.
  pub main-Moved : Moved w a st (main w a st).1.file.pointer
  unfolding main
  main-Moved = elim (Option-cases (given a.resume)) [
    | inr (name, h) ↦ rw (h, main) (resume-Moved name h)
    | inl h ↦ elim (Bool-cases (expects a st.file)) [
      | inr x ↦ rw (h, main, x) stays
      | inl x ↦ elim (Bool-cases (a.check_only || is_unchanged w a st.file)) [
        | inl c ↦ rw (h, main, x, c) stays
        | inr c ↦ rw (h, main, x, c) (mint-Moved h)
      ]
    ]
  ]
