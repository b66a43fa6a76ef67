-- ===== src/Scenario/Steps.antt =====
-- What one run of scripts/deploy_scenario.py can do to the state file and the databases, as an induction
-- principle over `main`.
use data_migration_tool.Prelude.{
  ℕ, zero, suc, ◌≡◌, refl, ◌⊎◌, inl, inr, true, false, ◌||◌, Option, none, some, [], ◌∷◌, arith,
  Bool-cases, Option-cases,
}
use data_migration_tool.Prelude.Text.{Text}
use data_migration_tool.Scenario.Dict.{look, put, look-put}
use data_migration_tool.Scenario.Name.{new_scenario_name}
use data_migration_tool.Scenario.Registry.{
  State, Pending, Status, registered, insert_failed, rejected_duplicates, given, name_clash,
  register_pending, settle_entry, finalize_scenario-some, mark_pending-some,
}
use data_migration_tool.Scenario.Mint.{
  created_row, saved, inserted, History, World, Store, save_state, Args, conclude, Found, lost,
  unfit, checked, settle, look_up, verify_and_finalize, broke, unregistered, created_id,
  checked_row, stg_row_counts, create_scenario_row, after_insert, register_and_insert, clashes,
  mint, is_registered, resume_scenario, main, expects, is_unchanged,
}

-- the store after a new scenario was created, registered and filled
unfoldable pub filled : World → Args → Text → ℕ → Store → Store
unfolding register_pending
filled w a name sid st =
    let s =
      register_pending st.file name sid w.sha a.target w.created a.keep_pointer a.expect_from in
    let h = saved s ∷ created_row a.target name sid ∷ st.done in
    record { file = s; done = inserted a.target name (w.insert h a.target name) ∷ h }

pub checked_row-cases :
    (w : World) (h : History) (target : Text) (sid : ℕ)
    → (checked_row w h target sid ≡ broke)
      ⊎ ((checked_row w h target sid ≡ unregistered)
          ⊎ (checked_row w h target sid ≡ created_id sid))
unfolding checked_row
checked_row-cases w h target sid = elim (Option-cases (stg_row_counts w h target sid)) [
  | inl e ↦ inl (rw (e, checked_row) refl)
  | inr ([], e) ↦ inr (inr (rw (e, checked_row) refl))
  | inr (r ∷ rs, e) ↦ inr (inl (rw (e, checked_row) refl))
]

-- a name that does not clash is in neither the file nor the database
pub clashes-false :
    (w : World) (a : Args) (s : State) (name : Text) (h : History)
    → clashes w a s name h ≡ some false
    → (name_clash s name ≡ false) × (w.scenario_count h a.target name ≡ some 0)
unfolding clashes
clashes-false w a s name h e = ground arith

is_registered_sound : (x : Status) → is_registered x ≡ true → x ≡ registered
unfolding is_registered
is_registered_sound x h = ground arith

module _ (w : World) (P : Store → Type 0) where
  -- P is kept by each change that a run makes
  pub record Closed : Type 0 where
    pub on_mark :
        (st : Store) (name : Text) (e : Pending) (status : Status)
        → P st
        → look st.file.pending_scenarios name ≡ some e
        → e.status ≡ registered
        → P (
            save_state
              (record st.file {
                pending_scenarios =
                    put name (record e { status = status }) st.file.pending_scenarios;
              })
              st)
    pub on_settle :
        (st : Store) (name : Text) (e : Pending)
        → P st
        → look st.file.pending_scenarios name ≡ some e
        → e.status ≡ registered
        → look_up w st.done e.target name e.scenario_id ≡ checked []
        → P (save_state (settle_entry st.file name e).0 st)
    pub on_create :
        (st : Store) (target name : Text) (sid : ℕ)
        → P st
        → P (record st { done = created_row target name sid ∷ st.done })
    pub on_fill :
        (a : Args) (st : Store) (name : Text) (sid : ℕ)
        → P st
        → name_clash st.file name ≡ false
        → w.scenario_count st.done a.target name ≡ some 0
        → P (filled w a name sid st)

  module _ (closed : Closed) where
    open closed use {on_mark, on_settle, on_create, on_fill}

    settle-P :
        (name : Text) (e : Pending) (found : Found) (st : Store)
        → P st
        → look st.file.pending_scenarios name ≡ some e
        → e.status ≡ registered
        → look_up w st.done e.target name e.scenario_id ≡ found
        → P (settle st.file name found st).1
    unfolding settle conclude
    settle-P name e lost st p l r f = p
    settle-P name e unfit st p l r f = p
    settle-P name e (checked []) st p l r f =
        rw (finalize_scenario-some st.file name e l, settle, conclude) (on_settle st name e p l r f)
    settle-P name e (checked (x ∷ xs)) st p l r f =
        rw (mark_pending-some st.file name rejected_duplicates e l, settle, conclude)
          (on_mark st name e rejected_duplicates p l r)

    pub verify_and_finalize-P :
        (name : Text) (e : Pending) (st : Store)
        → P st
        → look st.file.pending_scenarios name ≡ some e
        → e.status ≡ registered
        → P (verify_and_finalize w st.file name st).1
    unfolding verify_and_finalize
    verify_and_finalize-P name e st p l r =
        rw (l, verify_and_finalize)
          (settle-P name e (look_up w st.done e.target name e.scenario_id) st p l r refl)

    after_insert-P :
        (name : Text) (e : Pending) (rc : ℕ) (st : Store)
        → P st
        → look st.file.pending_scenarios name ≡ some e
        → e.status ≡ registered
        → P (after_insert w st.file name rc st).1
    unfolding after_insert
    after_insert-P name e zero st p l r = verify_and_finalize-P name e st p l r
    after_insert-P name e (suc rc) st p l r =
        rw (mark_pending-some st.file name insert_failed e l, after_insert)
          (on_mark st name e insert_failed p l r)

    register_and_insert-P :
        (a : Args) (name : Text) (sid : ℕ) (st : Store)
        → P (filled w a name sid st)
        → P
            (register_and_insert w a st.file name
              (created_id sid, record st { done = created_row a.target name sid ∷ st.done })).1
    unfolding register_and_insert filled save_state register_pending
    register_and_insert-P a name sid st p =
        after_insert-P name
          (record {
            scenario_id = sid;
            seed_sha256 = w.sha;
            target = a.target;
            created = w.created;
            keep_pointer = a.keep_pointer;
            expect_from = a.expect_from;
            status = registered;
          })
          _ (filled w a name sid st) p (look-put name _ st.file.pending_scenarios) refl

    checked-P :
        (a : Args) (name : Text) (sid : ℕ) (st : Store)
        → P st
        → name_clash st.file name ≡ false
        → w.scenario_count st.done a.target name ≡ some 0
        → P
            (register_and_insert w a st.file name (
              checked_row w (created_row a.target name sid ∷ st.done) a.target sid,
              record st { done = created_row a.target name sid ∷ st.done },
            )).1
    unfolding register_and_insert
    checked-P a name sid st p new n =
        elim (checked_row-cases w (created_row a.target name sid ∷ st.done) a.target sid) [
          | inl h ↦ rw h (on_create st a.target name sid p)
          | inr (inl h) ↦ rw h (on_create st a.target name sid p)
          | inr (inr h) ↦ rw h (register_and_insert-P a name sid st (on_fill a st name sid p new n))
        ]

    created-P :
        (a : Args) (name : Text) (answer : Option (Option ℕ × ℕ)) (st : Store)
        → P st
        → name_clash st.file name ≡ false
        → w.scenario_count st.done a.target name ≡ some 0
        → w.get_or_create st.done a.target name ≡ answer
        → P (register_and_insert w a st.file name (create_scenario_row w a.target name st)).1
    unfolding create_scenario_row register_and_insert
    created-P a name none st p new n h = rw (h, create_scenario_row) p
    created-P a name (some (none, sid)) st p new n h = rw (h, create_scenario_row) p
    created-P a name (some (some (suc err), sid)) st p new n h = rw (h, create_scenario_row) p
    created-P a name (some (some zero, sid)) st p new n h =
        rw (h, create_scenario_row) (checked-P a name sid st p new n)

    mint-P : (a : Args) (name : Text) (st : Store) → P st → P (mint w a st.file name st).1
    unfolding mint
    mint-P a name st p = elim (Option-cases (clashes w a st.file name st.done)) [
      | inl h ↦ rw (h, mint) p
      | inr (true, h) ↦ rw (h, mint) p
      | inr (false, h) ↦
          let (new, n) = clashes-false w a st.file name st.done h in
          elim (Bool-cases (w.connects st.done a.target)) [
            | inl c ↦ rw (h, mint, c) (created-P a name _ st p new n refl)
            | inr c ↦ rw (h, mint, c) p
          ]
    ]

    resume_scenario-P : (name : Text) (st : Store) → P st → P (resume_scenario w name st).1
    unfolding resume_scenario
    resume_scenario-P name st p = elim (Option-cases (look st.file.pending_scenarios name)) [
      | inl h ↦ rw (h, resume_scenario) p
      | inr (e, h) ↦ elim (Bool-cases (is_registered e.status)) [
        | inl r ↦
            rw (h, resume_scenario, r)
              (verify_and_finalize-P name e st p h (is_registered_sound e.status r))
        | inr r ↦ rw (h, resume_scenario, r) p
      ]
    ]

    -- What each change keeps, a run of the script keeps.
    pub main-P : (a : Args) (st : Store) → P st → P (main w a st).1
    unfolding main
    main-P a st p = elim (Option-cases (given a.resume)) [
      | inr (name, h) ↦ rw (h, main) (resume_scenario-P name st p)
      | inl h ↦ elim (Bool-cases (expects a st.file)) [
        | inr x ↦ rw (h, main, x) p
        | inl x ↦ elim (Bool-cases (a.check_only || is_unchanged w a st.file)) [
          | inl c ↦ rw (h, main, x, c) p
          | inr c ↦ rw (h, main, x, c) (mint-P a (new_scenario_name w.now) st p)
        ]
      ]
    ]
