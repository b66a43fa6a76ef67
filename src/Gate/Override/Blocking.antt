-- ===== src/Gate/Override/Blocking.antt =====
-- No override without a clean tree and a clean local deploy of the code.
use data_migration_tool.Prelude.{
  ℕ, ◌+◌, String, ◌≡◌, refl, sym, ◌∙◌, inl, inr, Bool, true, false, not, ◌&&◌, ◌||◌, Option, none,
  some, List, [], ◌∷◌, ◌++◌, arith, ltb, Bool-cases, Option-cases, is_empty, any, All,
}
use data_migration_tool.Gate.Evidence.{
  Entry, get, truthy, is_zero, is_text, Evidence, Loaded, absent, unreadable, loaded, step_of,
}
use data_migration_tool.Gate.Paths.{Identity}
use data_migration_tool.Gate.Report.{
  Group, Reason, How, Report, fail, fail_if, general, no_evidence, unreadable_evidence,
}
use data_migration_tool.Gate.SameCode.{Revisions, same_code, judge}
use data_migration_tool.Gate.Check.{
  max_age, did_not_pass, check_tree, check_deploy, check_verdict, check_age, check_order,
  check_regression, check_click_result, check_click_time, check_clickthrough, check_gate_detail,
  is_empty_evidence,
}
use data_migration_tool.Gate.Check.Spec.{Deployed}
use data_migration_tool.Prelude.Text.{Text}
use data_migration_tool.Gate.Check.Sound.{check_gate-Promotable}
use data_migration_tool.Gate.Check.Parts.{same_code_of}
use data_migration_tool.Gate.Log.{Store}
use data_migration_tool.Gate.Override.{Terminal, is_waivable, Failure, enforce}
use data_migration_tool.Gate.Override.Narrow.{decide-Authorized}

-- a failure that no override waives
abbrev blocked : Report → Bool
blocked r = any (λ f. not (is_waivable f.0)) r.failures

any-snoc {ℓ} :
    {A : Type ℓ} (p : A → Bool) (xs : List A) (x : A) → any p (xs ++ x ∷ []) ≡ (any p xs || p x)
any-snoc p [] x = ground arith
any-snoc p (y ∷ ys) x = ground (arith, any-snoc p ys x)

fail_if-blocked :
    (c : Bool) (g : Group) (why : Reason) (r : Report)
    → blocked (fail_if c g why r) ≡ (blocked r || (c && not (is_waivable g)))
unfolding fail_if
fail_if-blocked true g why r = any-snoc (λ f. not (is_waivable f.0)) r.failures (g, why)
fail_if-blocked false g why r = ground arith

judge-blocked :
    (g : Group) (v : Bool × How) (r : Report)
    → blocked (judge g v r) ≡ (blocked r || (not v.0 && not (is_waivable g)))
unfolding judge
judge-blocked g (true, how) r = ground arith
judge-blocked g (false, how) r = any-snoc (λ f. not (is_waivable f.0)) r.failures _

-- one more waivable failure
waivable-blocked :
    (fs : List Failure) (g : Group) (why : Reason)
    → is_waivable g ≡ true
    → any (λ f. not (is_waivable f.0)) (fs ++ (g, why) ∷ []) ≡ any (λ f. not (is_waivable f.0)) fs
waivable-blocked fs g why h = any-snoc (λ f. not (is_waivable f.0)) fs (g, why) ∙ ground arith

check_verdict-blocked : (reg : Entry) (r : Report) → blocked (check_verdict reg r) ≡ blocked r
unfolding check_verdict
check_verdict-blocked reg r = elim (Bool-cases (did_not_pass reg)) [
  | inl a ↦ rw a (waivable-blocked r.failures _ _ refl)
  | inr a ↦ rw a
]

check_age-blocked :
    (now : ℕ) (reg : Entry) (o : Option ℕ) (r : Report)
    → blocked (check_age now reg o r) ≡ blocked r
unfolding check_age
check_age-blocked now reg none r = waivable-blocked r.failures _ _ refl
check_age-blocked now reg (some t) r = elim (Bool-cases (ltb (t + max_age) now)) [
  | inl a ↦ rw a (waivable-blocked r.failures _ _ refl)
  | inr a ↦ elim (Bool-cases (ltb (now + 300) t)) [
    | inl b ↦ rw (a, b) (waivable-blocked r.failures _ _ refl)
    | inr b ↦ rw (a, b)
  ]
]

check_order-blocked :
    (dep reg : Entry) (o : Option ℕ) (r : Report) → blocked (check_order dep reg o r) ≡ blocked r
unfolding check_order
check_order-blocked dep reg none r = refl
check_order-blocked dep reg (some t) r = rw fail_if-blocked (ground arith)

check_click_result-blocked :
    (ct : Entry) (r : Report) → blocked (check_click_result ct r) ≡ blocked r
unfolding check_click_result
check_click_result-blocked ct r =
    elim (Bool-cases
      (not (is_zero (get ct "exit_code")) || not (is_text (get ct "verdict") "PASS"))) [
        | inl a ↦ rw a (waivable-blocked r.failures _ _ refl)
        | inr a ↦ rw a
      ]

check_click_time-blocked :
    (now : ℕ) (reg ct : Entry) (o : Option ℕ) (r : Report)
    → blocked (check_click_time now reg ct o r) ≡ blocked r
unfolding check_click_time
check_click_time-blocked now reg ct none r = waivable-blocked r.failures _ _ refl
check_click_time-blocked now reg ct (some t) r = simp fail_if-blocked (ground arith)

module _ (revs : Revisions) (i : Identity) where
  check_regression-blocked :
      (now : ℕ) (dep reg : Entry) (r : Report)
      → blocked (check_regression revs i now dep reg r) ≡ blocked r
  unfolding check_regression
  check_regression-blocked now dep reg r = elim (Bool-cases (is_empty reg)) [
    | inl h ↦ rw h (waivable-blocked r.failures _ _ refl)
    | inr h ↦ rw h (
        simp
          (
            check_order-blocked, check_age-blocked, fail_if-blocked, check_verdict-blocked,
            judge-blocked,
          )
          (ground arith))
  ]

  check_clickthrough-blocked :
      (now : ℕ) (reg ct : Entry) (r : Report)
      → blocked (check_clickthrough revs i now reg ct r) ≡ blocked r
  unfolding check_clickthrough
  check_clickthrough-blocked now reg ct r = elim (Bool-cases (is_empty ct)) [
    | inl h ↦ rw h (waivable-blocked r.failures _ _ refl)
    | inr h ↦ rw h (
        simp (check_click_time-blocked, fail_if-blocked, check_click_result-blocked, judge-blocked)
          (ground arith))
  ]

  check_deploy-blocked :
      (dep : Entry) (r : Report)
      → is_empty dep ≡ false
      → blocked (check_deploy revs i dep r) ≡ (
          ((blocked r || not (same_code revs dep i).0) || not (truthy (get dep "ok")))
          || truthy (get dep "dirty"))
  unfolding check_deploy
  check_deploy-blocked dep r h = rw h (simp (fail_if-blocked, judge-blocked) (ground arith))

  check_deploy-missing :
      (dep : Entry) (r : Report) → is_empty dep ≡ true → blocked (check_deploy revs i dep r) ≡ true
  unfolding check_deploy
  check_deploy-missing dep r h =
      rw h (any-snoc (λ f. not (is_waivable f.0)) r.failures _ ∙ ground arith)

  unblocked_deploy :
      (dep : Entry) (r : Report)
      → blocked (check_deploy revs i dep r) ≡ false
      → (blocked r ≡ false) × Deployed revs i dep
  unblocked_deploy dep r h = elim (Bool-cases (is_empty dep)) [
    | inl a ↦ absurd (cc (check_deploy-missing dep r a))
    | inr a ↦
        let k = sym (check_deploy-blocked dep r a) ∙ h in
        (
          ground arith,
          record {
            present = a;
            same = same_code_of revs dep i (ground arith);
            clean = ground arith;
            committed = ground arith;
          },
        )
  ]

  check_tree-blocked : blocked (check_tree i) ≡ i.dirty
  unfolding check_tree fail_if
  check_tree-blocked = ground arith

  -- What no override can replace.
  pub record Grounded (file : Loaded) : Type 0 where
    pub clean_tree : i.dirty ≡ false
    pub evidence : Evidence
    pub readable : file ≡ loaded evidence
    pub deployed : Deployed revs i (step_of evidence.steps "deploy_local")

  general_blocks : (why : Reason) (r : Report) → blocked (fail general why r) ≡ true
  general_blocks why r =
      any-snoc (λ f. not (is_waivable f.0)) r.failures (general, why) ∙ ground arith

  unblocked_gate :
      (now : ℕ) (file : Loaded)
      → blocked (check_gate_detail revs i now file) ≡ false
      → Grounded file
  unfolding check_gate_detail
  unblocked_gate now absent h = absurd (cc (general_blocks no_evidence (check_tree i)))
  unblocked_gate now (unreadable e) h =
      absurd (cc (general_blocks (unreadable_evidence e) (check_tree i)))
  unblocked_gate now (loaded ev) h = elim (Bool-cases (is_empty_evidence ev)) [
    | inl a ↦
        absurd (cc (rw (a, check_gate_detail) at h, general_blocks no_evidence (check_tree i)))
    | inr a ↦
        let dep = step_of ev.steps "deploy_local" in
        let reg = step_of ev.steps "regression" in
        let ct = step_of ev.steps "clickthrough_local" in
        let h1 = rw (a, check_gate_detail) at h in
        let h2 = sym (check_clickthrough-blocked now reg ct _) ∙ h1 in
        let h3 = sym (check_regression-blocked now dep reg _) ∙ h2 in
        let (h4, d) = unblocked_deploy dep _ h3 in
        record {
          clean_tree = sym check_tree-blocked ∙ h4;
          evidence = ev;
          readable = refl;
          deployed = d;
        }
  ]

  passed_gate :
      (now : ℕ) (file : Loaded) → (check_gate_detail revs i now file).ok ≡ true → Grounded file
  unfolding check_gate_detail
  passed_gate now absent h = absurd (cc)
  passed_gate now (unreadable e) h = absurd (cc)
  passed_gate now (loaded ev) h =
      let p = (check_gate-Promotable revs i now ev).0 h in
      record { clean_tree = p.clean_tree; evidence = ev; readable = refl; deployed = p.deployed }

All-unblocked :
    (fs : List Failure)
    → All (λ f. is_waivable f.0 ≡ true) fs
    → any (λ f. not (is_waivable f.0)) fs ≡ false
All-unblocked [] h = refl
All-unblocked (f ∷ fs) h = rw h.0 (All-unblocked fs h.1)

-- Whatever the owner types, `enforce` lets no code through that was not deployed cleanly to the
-- local database from a clean tree: with the override or without it, readable evidence of a clean
-- local deploy of this code is there and the working tree is clean.
pub enforce-Grounded :
    (revs : Revisions) (i : Identity) (now : ℕ) (stage : String) (override : Option Text)
    (t : Terminal) (who : String) (s : Store)
    → (enforce revs i now stage override t who s).0 ≡ true
    → Grounded revs i s.file
unfolding enforce
enforce-Grounded revs i now stage override t who s h =
    elim (Bool-cases (check_gate_detail revs i now s.file).ok) [
      | inl a ↦ passed_gate revs i now s.file a
      | inr a ↦ elim (Option-cases override) [
        | inl b ↦ absurd (cc (rw (a, b, enforce) at h))
        | inr (reason, b) ↦
            let h' = rw (a, b, enforce) at h in
            let z =
              decide-Authorized reason i (check_gate_detail revs i now s.file).failures t h' in
            unblocked_gate revs i now s.file (All-unblocked _ z.waivable)
      ]
    ]

-- Without an override the answer is the gate's own.
pub enforce-check :
    (revs : Revisions) (i : Identity) (now : ℕ) (stage : String) (t : Terminal) (who : String)
    (s : Store)
    → (enforce revs i now stage none t who s).0 ≡ (check_gate_detail revs i now s.file).ok
unfolding enforce
enforce-check revs i now stage t who s = ground arith
