-- ===== src/Scenario/Lifecycle.antt =====
-- The life of a scenario in the state file: what scripts/deploy_scenario.py may do to the file, as steps,
-- and what every sequence of such steps keeps.
use data_migration_tool.Prelude.{
  ℕ, ◌≡◌, refl, ◌∙◌, ◌≢◌, inl, inr, Bool, false, Option, none, some, arith, Bool-cases,
}
use data_migration_tool.Prelude.Text.{Text, text_eq, text_eq_sound}
use data_migration_tool.Scenario.Dict.{
  Dict, look, has, put, remove, look-put_other, look-remove_other, look-put_new, has-look,
}
use data_migration_tool.Scenario.Registry.{
  State, Pending, Status, Expected, registered, name_clash, register_pending, mark_pending,
  carry_over, finalize_scenario, outcomes_of, outcome_source, settle_entry, finalize_scenario-some,
  mark_pending-some,
}

-- A new name is registered; a registered scenario gets another status, or is settled for good.
infix 40 ◌⟶◌ ◌⟶*◌
pub data ◌⟶◌ : State → State → Type 0 where
  registers :
      {s s' : State} (name : Text) (sid : ℕ) (sha target created : Text) (keep_pointer : Bool)
      (expect_from : Option Text)
      → name_clash s name ≡ false
      → s' ≡ register_pending s name sid sha target created keep_pointer expect_from
      → s ⟶ s'
  marks :
      {s s' : State} (name : Text) (e : Pending) (status : Status)
      → look s.pending_scenarios name ≡ some e
      → e.status ≡ registered
      → mark_pending s name status ≡ some s'
      → s ⟶ s'
  settles :
      {s s' : State} (name : Text) (e : Pending) (copied_from : Option Text)
      → look s.pending_scenarios name ≡ some e
      → e.status ≡ registered
      → finalize_scenario s name ≡ some (s', copied_from)
      → s ⟶ s'

pub data ◌⟶*◌ : State → State → Type 0 where
  here : {s : State} → s ⟶* s
  after : {s t u : State} → s ⟶ t → t ⟶* u → s ⟶* u

pub ⟶*-trans : {s t u : State} → s ⟶* t → t ⟶* u → s ⟶* u
⟶*-trans here r = r
⟶*-trans (after p q) r = after p (⟶*-trans q r)

carried_over :
    (d : Dict Expected) (name : Text) (x : Option (Text × Expected)) (n : Text) (o : Expected)
    → look d n ≡ some o
    → has d name ≡ false
    → look
        (elim x as (λ _. Dict Expected × Option Text) [
          | none ↦ (d, none)
          | some (source, p) ↦ (put name p d, some source)
        ]).0
        n
      ≡ some o
carried_over d name none n o h new = h
carried_over d name (some (source, p)) n o h new = look-put_new name n p o d h new

-- what the copy leaves of an entry that was there
pub carry_over-look :
    (s : State) (name : Text) (expect_from : Option Text) (n : Text) (o : Expected)
    → look s.expected_outcomes n ≡ some o
    → look (carry_over s name expect_from).0 n ≡ some o
unfolding carry_over
carry_over-look s name expect_from n o h = elim (Bool-cases (has s.expected_outcomes name)) [
  | inl e ↦ rw e h
  | inr e ↦ rw e (
      carried_over s.expected_outcomes name
        (outcomes_of s.expected_outcomes (outcome_source s expect_from)) n o h e)
]

finalized :
    (s s' : State) (name : Text) (e : Pending) (c : Option Text)
    → look s.pending_scenarios name ≡ some e
    → finalize_scenario s name ≡ some (s', c)
    → s' ≡ (settle_entry s name e).0
finalized s s' name e c h f = cc (finalize_scenario-some s name e h)

marked :
    (s s' : State) (name : Text) (e : Pending) (status : Status)
    → look s.pending_scenarios name ≡ some e
    → mark_pending s name status ≡ some s'
    → s'
      ≡ record s { pending_scenarios = put name (record e { status = status }) s.pending_scenarios }
marked s s' name e status h f = cc (mark_pending-some s name status e h)

settle_entry-expected_outcomes :
    (s : State) (name : Text) (e : Pending)
    → (settle_entry s name e).0.expected_outcomes ≡ (carry_over s name e.expect_from).0
unfolding settle_entry
settle_entry-expected_outcomes s name e = elim (Bool-cases e.keep_pointer) [
  | inl h ↦ rw h refl
  | inr h ↦ rw h refl
]

-- One step keeps every entry of the expected outcomes as it is.
⟶-expected_outcomes :
    {s s' : State} (n : Text) (o : Expected)
    → s ⟶ s'
    → look s.expected_outcomes n ≡ some o
    → look s'.expected_outcomes n ≡ some o
unfolding register_pending
⟶-expected_outcomes n o (registers name sid sha target created kp ef new e) h = rw e h
⟶-expected_outcomes {s} {s'} n o (marks name e status l r m) h =
    rw (marked s s' name e status l m) h
⟶-expected_outcomes {s} {s'} n o (settles name e c l r f) h =
    rw (finalized s s' name e c l f, settle_entry-expected_outcomes s name e)
      (carry_over-look s name e.expect_from n o h)

-- Whatever the script does to the file, an entry of the expected outcomes is never changed or removed.
pub ⟶*-expected_outcomes :
    {s s' : State} (n : Text) (o : Expected)
    → s ⟶* s'
    → look s.expected_outcomes n ≡ some o
    → look s'.expected_outcomes n ≡ some o
⟶*-expected_outcomes n o here h = h
⟶*-expected_outcomes n o (after p q) h = ⟶*-expected_outcomes n o q (⟶-expected_outcomes n o p h)

unknown :
    (s : State) (name : Text) → name_clash s name ≡ false → has s.pending_scenarios name ≡ false
unfolding name_clash
unknown s name h = ground arith

-- a name without an entry is another one than a name with an entry
apart_of_unknown :
    (d : Dict Pending) (name n : Text) (x : Pending)
    → has d name ≡ false
    → look d n ≡ some x
    → text_eq name n ≡ false
apart_of_unknown d name n x h k = elim (Bool-cases (text_eq name n)) [
  | inl e ↦ absurd (cc (text_eq_sound name n e, has-look n x d k))
  | inr e ↦ e
]

apart_of_status :
    (d : Dict Pending) (name n : Text) (e x : Pending)
    → look d name ≡ some e
    → e.status ≡ registered
    → look d n ≡ some x
    → x.status ≢ registered
    → text_eq name n ≡ false
apart_of_status d name n e x l r k bad = elim (Bool-cases (text_eq name n)) [
  | inl q ↦ absurd (bad (cc (text_eq_sound name n q)))
  | inr q ↦ q
]

settle_entry-pending_scenarios :
    (s : State) (name : Text) (e : Pending)
    → (settle_entry s name e).0.pending_scenarios ≡ remove name s.pending_scenarios
unfolding settle_entry
settle_entry-pending_scenarios s name e = elim (Bool-cases e.keep_pointer) [
  | inl h ↦ rw h refl
  | inr h ↦ rw h refl
]

⟶-rejected :
    {s s' : State} (n : Text) (x : Pending)
    → s ⟶ s'
    → look s.pending_scenarios n ≡ some x
    → x.status ≢ registered
    → look s'.pending_scenarios n ≡ some x
unfolding register_pending
⟶-rejected {s} n x (registers name sid sha target created kp ef new e) h bad = rw e (
    look-put_other name n _ s.pending_scenarios
      (apart_of_unknown s.pending_scenarios name n x (unknown s name new) h)
    ∙ h)
⟶-rejected {s} {s'} n x (marks name e status l r m) h bad = rw (marked s s' name e status l m) (
    look-put_other name n _ s.pending_scenarios
      (apart_of_status s.pending_scenarios name n e x l r h bad)
    ∙ h)
⟶-rejected {s} {s'} n x (settles name e c l r f) h bad =
    rw (finalized s s' name e c l f, settle_entry-pending_scenarios s name e)
      (look-remove_other name n s.pending_scenarios
          (apart_of_status s.pending_scenarios name n e x l r h bad)
        ∙ h)

-- The entry of a scenario whose insert failed or that was rejected stays for good.
pub ⟶*-rejected :
    {s s' : State} (n : Text) (x : Pending)
    → s ⟶* s'
    → look s.pending_scenarios n ≡ some x
    → x.status ≢ registered
    → look s'.pending_scenarios n ≡ some x
⟶*-rejected n x here h bad = h
⟶*-rejected n x (after p q) h bad = ⟶*-rejected n x q (⟶-rejected n x p h bad) bad
