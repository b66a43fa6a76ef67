-- ===== src/Promote/Permitted.antt =====
-- What a deploy to ATP without an override rests on, and how the wait for the review ends.
use data_migration_tool.Prelude.{
  ℕ, zero, suc, ◌+◌, ◌*◌, ◌/◌, ◌≤◌, ◌<◌, ◌≡◌, refl, ◌∙◌, ◌⊎◌, inl, inr, Bool, true, false, none,
  some, ◌∷◌, arith, leb, nat_beq, leb→le, Bool-cases,
}
use data_migration_tool.Gate.Evidence.{is_zero, Evidence, Loaded, absent, unreadable, loaded}
use data_migration_tool.Gate.Paths.{Identity}
use data_migration_tool.Gate.Check.{check_gate_detail}
use data_migration_tool.Gate.SameCode.{Revisions}
use data_migration_tool.Gate.Check.Spec.{Promotable}
use data_migration_tool.Gate.Check.Sound.{check_gate-Promotable}
use data_migration_tool.Gate.Override.Blocking.{enforce-check}
use data_migration_tool.Promote.State.{
  updated_main, gate_checked, Decision-cases, changes_requested, approved, undecided, History,
  World, State, Ran, done,
}
use data_migration_tool.Promote.Stages.{enforce_gate, stage_deploy_prod}
use data_migration_tool.Promote.Merge.{merge_approved, merge_loop, stage_merge}

-- the evidence file holds what the owner's rule asks for; one that is absent or cannot be read does not
abbrev pub PromotableFile : Revisions → Identity → ℕ → Loaded → Type 0
PromotableFile revs i now file = (ev : Evidence) × (file ≡ loaded ev) × Promotable revs i now ev

check_gate-file :
    (revs : Revisions) (i : Identity) (now : ℕ) (file : Loaded)
    → (check_gate_detail revs i now file).ok ≡ true
    → PromotableFile revs i now file
unfolding check_gate_detail
check_gate-file revs i now absent h = absurd (cc)
check_gate-file revs i now (unreadable e) h = absurd (cc)
check_gate-file revs i now (loaded ev) h = (ev, refl, (check_gate-Promotable revs i now ev).0 h)

-- Without an override, deploy-prod either finds the evidence that the owner's rule asks for, about the
-- commit that it has just pulled, or does not pass and does nothing but pull and check; an evidence file
-- that is absent or cannot be read is the second case.
pub deploy_prod-Promotable :
    (w : World) (s : State)
    → PromotableFile w.revs
        (w.identity (updated_main ∷ s.did))
        (w.now (updated_main ∷ s.did))
        s.store.file
      ⊎ (((stage_deploy_prod w true none s).0 ≡ done false)
          × ((stage_deploy_prod w true none s).1.did ≡ gate_checked false ∷ updated_main ∷ s.did))
unfolding stage_deploy_prod enforce_gate
deploy_prod-Promotable w s =
    let i = w.identity (updated_main ∷ s.did) in
    let now = w.now (updated_main ∷ s.did) in
    let c = enforce-check w.revs i now "deploy-prod" w.terminal w.who s.store in
    elim (Bool-cases (check_gate_detail w.revs i now s.store.file).ok) [
      | inl h ↦ inl (check_gate-file w.revs i now s.store.file h)
      | inr h ↦ let q = c ∙ h in inr (rw q refl, rw q refl)
    ]

-- How the wait for the review of a pull request goes on from a time on, and whether it is merged.
pub data Review (w : World) (pr deadline : ℕ) (h : History) : ℕ → Bool → Type 0 where
  was_merged : {n : ℕ} → n ≤ deadline → (w.pr_state pr n).0 ≡ true → Review w pr deadline h n true
  refused :
      {n : ℕ}
      → n ≤ deadline
      → (w.pr_state pr n).0 ≡ false
      → (w.pr_state pr n).1 ≡ changes_requested
      → Review w pr deadline h n false
  merges :
      {n : ℕ}
      → n ≤ deadline
      → (w.pr_state pr n).0 ≡ false
      → (w.pr_state pr n).1 ≡ approved
      → Review w pr deadline h n (is_zero (w.merge_rc pr h))
  timed_out : {n : ℕ} → deadline ≤ n → Review w pr deadline h n false
  later :
      {n : ℕ} {b : Bool}
      → n < deadline
      → (w.pr_state pr n).0 ≡ false
      → (w.pr_state pr n).1 ≡ undecided
      → Review w pr deadline h (n + 30) b
      → Review w pr deadline h n b

module _ (w : World) (pr deadline : ℕ) (s : State) where
  abbrev Reviewed : ℕ → Ran Bool → Type 0
  Reviewed n r = (b : Bool) × (r ≡ done b) × Review w pr deadline s.did n b

  merge_approved_lem : (merge_approved w pr s).0 ≡ done (is_zero (w.merge_rc pr s.did))
  unfolding merge_approved
  merge_approved_lem = refl

  merge_loop-Reviewed :
      (fuel n : ℕ)
      → deadline + 30 < n + 30 * fuel
      → 0 < fuel
      → Reviewed n (merge_loop w pr deadline fuel n s).0
  unfolding merge_loop
  merge_loop-Reviewed zero n h f = absurd (omega arith)
  merge_loop-Reviewed (suc fuel) n h f = elim (Bool-cases (leb n deadline)) [
    | inr z ↦ rw (z, merge_loop) (false, refl, timed_out (ground arith))
    | inl z ↦
        let early : n ≤ deadline = leb→le n deadline z in
        elim (Bool-cases (w.pr_state pr n).0) [
          | inl m ↦ rw (z, merge_loop, m) (true, refl, was_merged early m)
          | inr m ↦ elim (Decision-cases (w.pr_state pr n).1) [
            | inl d ↦ rw (z, merge_loop, m, d) (false, refl, refused early m d)
            | inr (inl d) ↦ rw (z, merge_loop, m, d) (_, merge_approved_lem, merges early m d)
            | inr (inr d) ↦ elim (Bool-cases (nat_beq n deadline)) [
              | inl q ↦ rw (z, merge_loop, m, d, q) (false, refl, timed_out (ground arith))
              | inr q ↦
                  let before : n < deadline = ground arith in
                  let (b, e, r) = merge_loop-Reviewed fuel (n + 30) (omega arith) (omega arith) in
                  rw (z, merge_loop, m, d, q) (b, e, later before m d r)
            ]
          ]
        ]
  ]

enough_rounds : (d : ℕ) → d + 30 < 0 + 30 * (d / 30 + 2)
enough_rounds d = grind arith

-- The wait for the review of a pull request ends: with success only if a poll in time finds it merged,
-- or approved and then merged without error, after polls that all found it undecided; and without at
-- requested changes or once the time is up.
pub stage_merge-Review :
    (w : World) (pr wait_min : ℕ) (s : State)
    → nat_beq pr 0 ≡ false
    → (b : Bool) × ((stage_merge w (some pr) wait_min s).0 ≡ done b)
      × Review w pr (wait_min * 60) s.did 0 b
unfolding stage_merge
stage_merge-Review w pr wait_min s h = rw h (
    merge_loop-Reviewed w pr (wait_min * 60) s (wait_min * 60 / 30 + 2) 0
      (enough_rounds (wait_min * 60)) (omega arith))
