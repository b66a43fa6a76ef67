-- ===== src/Scenario/Registry.antt =====
-- The pure functions of scripts/deploy_scenario.py over the state file. A dict that is missing from the
-- file is an empty one, and so is a null.
use data_migration_tool.Prelude.{
  ℕ, ◌≡◌, refl, ◌∙◌, Bool, false, ◌||◌, Option, none, some, [], ◌∷◌, if◌then◌else◌, is_empty,
}
use data_migration_tool.Prelude.Text.{Text, text_eq}
use data_migration_tool.Scenario.Dict.{Dict, look, has, put, remove, remove-put, look-put}

-- the expected outcomes of a scenario, by sub-object and key
abbrev pub Expected : Type 0
Expected = Dict (Dict Text)

pub data Status : Type 0 where
  registered insert_failed rejected_duplicates : Status

pub record Pending : Type 0 where
  pub scenario_id : ℕ
  pub seed_sha256 : Text
  pub target : Text
  pub created : Text
  pub keep_pointer : Bool
  pub expect_from : Option Text
  pub status : Status

pub record Minted : Type 0 where
  pub scenario_id : ℕ
  pub seed_sha256 : Text
  pub target : Text
  pub created : Text

-- POINTER_KEYS
pub record Pointer : Type 0 where
  pub current_scenario : Option Text
  pub scenario_id : Option ℕ
  pub seed_sha256 : Option Text
  pub target : Option Text
  pub created : Option Text

pub record State : Type 0 where
  pub pointer : Pointer
  pub expected_outcomes : Dict Expected
  pub minted_scenarios : Dict Minted
  pub pending_scenarios : Dict Pending

-- o, where None and the empty text count as nothing
unfoldable pub given : Option Text → Option Text
given none = none
given (some []) = none
given (some (c ∷ t)) = some (c ∷ t)

unfoldable pub is_current : State → Text → Bool
is_current s name = elim s.pointer.current_scenario [ none ↦ false | some c ↦ text_eq name c ]

unfoldable pub name_clash : State → Text → Bool
unfolding is_current
name_clash s name =
    is_current s name
    || has s.expected_outcomes name
    || has s.minted_scenarios name
    || has s.pending_scenarios name

unfoldable pub register_pending : State → Text → ℕ → Text → Text → Text → Bool → Option Text → State
register_pending s new_name sid sha target created keep_pointer expect_from = record s {
  pending_scenarios =
      put new_name
        (record {
          scenario_id = sid;
          seed_sha256 = sha;
          target = target;
          created = created;
          keep_pointer = keep_pointer;
          expect_from = expect_from;
          status = registered;
        })
        s.pending_scenarios;
}

-- without such an entry the script stops with a KeyError
unfoldable pub mark_pending : State → Text → Status → Option State
mark_pending s name status = elim (look s.pending_scenarios name) [
  | none ↦ none
  | some e ↦
      some (record s {
        pending_scenarios = put name (record e { status = status }) s.pending_scenarios;
      })
]

-- expect_from or state.get("current_scenario")
unfoldable pub outcome_source : State → Option Text → Option Text
unfolding given
outcome_source s expect_from = elim (given expect_from) [
  | none ↦ given s.pointer.current_scenario
  | some t ↦ some t
]

-- the outcomes of the source, where there are any
unfoldable pub outcomes_of : Dict Expected → Option Text → Option (Text × Expected)
outcomes_of d none = none
outcomes_of d (some source) = elim (look d source) [
  | none ↦ none
  | some o ↦ if is_empty o then none else some (source, o)
]

-- the expected outcomes after the copy, and the scenario that they were copied from
unfoldable pub carry_over : State → Text → Option Text → Dict Expected × Option Text
unfolding outcome_source outcomes_of
carry_over s new_name expect_from =
    if has s.expected_outcomes new_name
    then (s.expected_outcomes, none)
    else elim (outcomes_of s.expected_outcomes (outcome_source s expect_from)) [
      | none ↦ (s.expected_outcomes, none)
      | some (source, o) ↦ (put new_name o s.expected_outcomes, some source)
    ]

unfoldable pub register_scenario :
    State → Text → ℕ → Text → Text → Text → Bool → Option Text → State × Option Text
unfolding carry_over
register_scenario s new_name sid sha target created keep_pointer expect_from =
    let (outcomes, copied_from) = carry_over s new_name expect_from in
    (
      if keep_pointer
          then record s {
            expected_outcomes = outcomes;
            minted_scenarios =
                put new_name
                  (record {
                    scenario_id = sid;
                    seed_sha256 = sha;
                    target = target;
                    created = created;
                  })
                  s.minted_scenarios;
          }
          else record s {
            expected_outcomes = outcomes;
            pointer = record {
              current_scenario = some new_name;
              scenario_id = some sid;
              seed_sha256 = some sha;
              target = some target;
              created = some created;
            };
          },
      copied_from,
    )

-- the entry is taken out and registered for good
unfoldable pub settle_entry : State → Text → Pending → State × Option Text
unfolding register_scenario
settle_entry s name e =
    register_scenario (record s { pending_scenarios = remove name s.pending_scenarios }) name
      e.scenario_id e.seed_sha256 e.target e.created e.keep_pointer e.expect_from

-- without a pending entry the script stops with a KeyError
unfoldable pub finalize_scenario : State → Text → Option (State × Option Text)
unfolding settle_entry
finalize_scenario s name = elim (look s.pending_scenarios name) [
  | none ↦ none
  | some e ↦ some (settle_entry s name e)
]

pub finalize_scenario-some :
    (s : State) (name : Text) (e : Pending)
    → look s.pending_scenarios name ≡ some e
    → finalize_scenario s name ≡ some (settle_entry s name e)
unfolding finalize_scenario
finalize_scenario-some s name e h = rw (h, finalize_scenario) refl

pub mark_pending-some :
    (s : State) (name : Text) (status : Status) (e : Pending)
    → look s.pending_scenarios name ≡ some e
    → mark_pending s name status
      ≡ some (record s {
        pending_scenarios = put name (record e { status = status }) s.pending_scenarios;
      })
unfolding mark_pending
mark_pending-some s name status e h = rw (h, mark_pending) refl

-- Registering a new name as pending and finalizing it at once is registering it for good directly.
pub finalize_scenario-register_pending :
    (s : State) (name : Text) (sid : ℕ) (sha target created : Text) (keep_pointer : Bool)
    (expect_from : Option Text)
    → has s.pending_scenarios name ≡ false
    → finalize_scenario
        (register_pending s name sid sha target created keep_pointer expect_from)
        name
      ≡ some (register_scenario s name sid sha target created keep_pointer expect_from)
unfolding register_pending settle_entry
finalize_scenario-register_pending s name sid sha target created keep_pointer expect_from h =
    finalize_scenario-some _ name _ (look-put name _ s.pending_scenarios)
    ∙ rw (settle_entry, remove-put name _ s.pending_scenarios h) refl
