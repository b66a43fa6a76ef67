-- ===== src/Gate/Check/Sound.antt =====
-- The gate passes exactly what the owner's rule allows.
use data_migration_tool.Prelude.{
  ℕ, ◌≤◌, ◌≡◌, refl, sym, ◌∙◌, ◌↔◌, inl, inr, Bool, true, false, not, ◌&&◌, Option, none, some,
  arith, Bool-cases, Option-cases, is_empty, any, is_empty-keep-not,
}
use data_migration_tool.Prelude.Text.{Text, codes, text_eq, text_eq_sound, text_eq_refl}
use data_migration_tool.Gate.Evidence.{
  Value, Entry, get, show, parse_time, Evidence, loaded, step_of,
}
use data_migration_tool.Gate.Paths.{Identity}
use data_migration_tool.Gate.Report.{Report, fail_if}
use data_migration_tool.Gate.SameCode.{Revisions}
use data_migration_tool.Gate.Check.{
  full_pipelines, pipelines_ran, missing_pipelines, is_empty_evidence, check_tree, check_deploy,
  check_regression, check_clickthrough, check_gate_detail, deployed_late, did_not_pass, before_end,
}
use data_migration_tool.Gate.Check.Spec.{
  Deployed, Covers, Timely, Regressed, ClickedThrough, Promotable,
}
use data_migration_tool.Gate.Check.Parts.{
  same_code_of, of_same_code, check_deploy-ok, check_regression-ok, check_clickthrough-ok,
  check_regression-missing, check_clickthrough-missing, in_time, in_order,
}

covers : (v : Value) → is_empty (missing_pipelines v) ≡ true → Covers v
unfolding missing_pipelines
covers v h =
    (is_empty-keep-not (λ p. any (λ q. text_eq (codes p) q) (pipelines_ran v)) full_pipelines).0 h

covered : (v : Value) → Covers v → is_empty (missing_pipelines v) ≡ true
unfolding missing_pipelines
covered v h =
    (is_empty-keep-not (λ p. any (λ q. text_eq (codes p) q) (pipelines_ran v)) full_pipelines).1 h

same_run_test :
    (b : Bool) (x y : Text) → (b ≡ false → x ≡ y) → not (not b && not (text_eq x y)) ≡ true
same_run_test true x y h = refl
same_run_test false x y h = rw (h refl, text_eq_refl)

before_end_test :
    (t : ℕ) (o : Option ℕ) → ((end : ℕ) → o ≡ some end → end ≤ t) → before_end t o ≡ false
before_end_test t none h = refl
before_end_test t (some end) h = let le : end ≤ t = h end refl in ground arith

check_tree-ok : (i : Identity) → (check_tree i).ok ≡ not i.dirty
unfolding check_tree fail_if
check_tree-ok i = ground arith

module _ (revs : Revisions) (i : Identity) where
  deploy_gives :
      (dep : Entry) (r : Report)
      → (check_deploy revs i dep r).ok ≡ true
      → (r.ok ≡ true) × Deployed revs i dep
  deploy_gives dep r h =
      let k = sym (check_deploy-ok revs i dep r) ∙ h in
      (
        ground arith,
        record {
          present = ground arith;
          same = same_code_of revs dep i (ground arith);
          clean = ground arith;
          committed = ground arith;
        },
      )

  deploy_of :
      (dep : Entry) (r : Report)
      → r.ok ≡ true
      → Deployed revs i dep
      → (check_deploy revs i dep r).ok ≡ true
  deploy_of dep r h d = rw check_deploy-ok (ground (arith, of_same_code revs dep i d.same))

  module _ (now : ℕ) (dep reg : Entry) where
    give-Timely :
        (o : Option ℕ)
        → parse_time (get reg "finished_at") ≡ o
        → in_time now o ≡ true
        → in_order dep reg o ≡ true
        → Timely revs i now dep reg
    unfolding deployed_late
    give-Timely none e h k = absurd (cc)
    give-Timely (some end) e h k = record {
      end = end;
      finished = e;
      recent = ground arith;
      past = ground arith;
      deployed_first = λ at d p start s. ground arith;
    }

    Timely-tests :
        (t : Timely revs i now dep reg)
        → (in_time now (parse_time (get reg "finished_at")) ≡ true)
          × (in_order dep reg (parse_time (get reg "finished_at")) ≡ true)
    unfolding deployed_late
    Timely-tests t = rw t.finished (
      ground arith,
      first (is_empty dep) refl (parse_time (get dep "at")) refl (parse_time (get reg "started_at"))
          refl,
    )
      where
        first :
            (b : Bool)
            → is_empty dep ≡ b
            → (d : Option ℕ) → parse_time (get dep "at") ≡ d
            → (s : Option ℕ) → parse_time (get reg "started_at") ≡ s
            → not (not b && deployed_late d s t.end) ≡ true
        first true eb d ed s es = refl
        first false eb none ed s es = refl
        first false eb (some at) ed none es =
            let le : at ≤ t.end = t.deployed_first at eb ed t.end (inr (es, refl)) in ground arith
        first false eb (some at) ed (some start) es =
            let le : at ≤ start = t.deployed_first at eb ed start (inl es) in ground arith

    regression_gives :
        (r : Report)
        → (check_regression revs i now dep reg r).ok ≡ true
        → (r.ok ≡ true) × Regressed revs i now dep reg
    unfolding did_not_pass
    regression_gives r h = elim (Bool-cases (is_empty reg)) [
      | inl a ↦ absurd (cc (check_regression-missing revs i now dep reg r a))
      | inr a ↦
          let k = sym (check_regression-ok revs i now dep reg r a) ∙ h in
          let m : is_empty (missing_pipelines (get reg "pipelines")) ≡ true = ground arith in
          (
            ground arith,
            record {
              present = a;
              same = same_code_of revs reg i (ground arith);
              on_local = ground arith;
              full = covers (get reg "pipelines") m;
              exit_code = ground arith;
              verdict = ground arith;
              no_new_failures = ground arith;
              no_new_review = ground arith;
              committed = ground arith;
              run_id = ground arith;
              timely =
                  give-Timely (parse_time (get reg "finished_at")) refl (ground arith)
                    (ground arith);
            },
          )
    ]

    regression_of :
        (r : Report)
        → r.ok ≡ true
        → Regressed revs i now dep reg
        → (check_regression revs i now dep reg r).ok ≡ true
    unfolding did_not_pass
    regression_of r h g =
        let m = covered (get reg "pipelines") g.full in
        let (t, o) = Timely-tests g.timely in
        let s = of_same_code revs reg i g.same in
        rw (check_regression-ok revs i now dep reg r g.present) (ground arith)

  module _ (now : ℕ) (reg ct : Entry) where
    click_gives :
        (r : Report)
        → (check_clickthrough revs i now reg ct r).ok ≡ true
        → (r.ok ≡ true) × ClickedThrough revs i now reg ct
    click_gives r h = elim (Bool-cases (is_empty ct)) [
      | inl a ↦ absurd (cc (check_clickthrough-missing revs i now reg ct r a))
      | inr a ↦ elim (Option-cases (parse_time (get ct "at"))) [
        | inl b ↦
            absurd (let k = sym (check_clickthrough-ok revs i now reg ct r a) ∙ h in ground arith)
        | inr (at, b) ↦
            let k = sym (check_clickthrough-ok revs i now reg ct r a) ∙ h in
            (
              ground arith,
              record {
                present = a;
                same = same_code_of revs ct i (ground arith);
                same_run = λ p. text_eq_sound _ _ (ground arith);
                local_console = ground arith;
                exit_code = ground arith;
                verdict = ground arith;
                committed = ground arith;
                at = at;
                ran = b;
                recent = ground arith;
                after_run = λ end p. ground arith;
              },
            )
      ]
    ]

    click_of :
        (r : Report)
        → r.ok ≡ true
        → ClickedThrough revs i now reg ct
        → (check_clickthrough revs i now reg ct r).ok ≡ true
    click_of r h g =
        rw (check_clickthrough-ok revs i now reg ct r g.present, g.ran)
          (ground (
            arith,
            of_same_code revs ct i g.same,
            same_run_test (is_empty reg) (show (get ct "run_id")) (show (get reg "run_id"))
                g.same_run,
            before_end_test g.at (parse_time (get reg "finished_at")) g.after_run,
          ))

  gives :
      (now : ℕ) (ev : Evidence)
      → (check_gate_detail revs i now (loaded ev)).ok ≡ true
      → Promotable revs i now ev
  unfolding check_gate_detail
  gives now ev h = elim (Bool-cases (is_empty_evidence ev)) [
    | inl a ↦ absurd (cc (rw (a, check_gate_detail) at h))
    | inr a ↦
        let dep = step_of ev.steps "deploy_local" in
        let reg = step_of ev.steps "regression" in
        let ct = step_of ev.steps "clickthrough_local" in
        let h0 = rw (a, check_gate_detail) at h in
        let (h1, clicked) = click_gives now reg ct _ h0 in
        let (h2, regressed) = regression_gives now dep reg _ h1 in
        let (h3, deployed) = deploy_gives dep _ h2 in
        record {
          clean_tree = ground (arith, check_tree-ok i);
          evidence = a;
          deployed = deployed;
          regressed = regressed;
          clicked = clicked;
        }
  ]

  given :
      (now : ℕ) (ev : Evidence)
      → Promotable revs i now ev
      → (check_gate_detail revs i now (loaded ev)).ok ≡ true
  unfolding check_gate_detail
  given now ev g =
      let dep = step_of ev.steps "deploy_local" in
      let reg = step_of ev.steps "regression" in
      let ct = step_of ev.steps "clickthrough_local" in
      let clean : (check_tree i).ok ≡ true = rw (check_tree-ok, g.clean_tree) in
      rw (g.evidence, check_gate_detail)
        (click_of now reg ct _
          (regression_of now dep reg _ (deploy_of dep _ clean g.deployed) g.regressed) g.clicked)

  -- The gate passes exactly when the owner's rule holds: a clean tree, and evidence of a clean local
  -- deploy, of a full and recent local regression with nothing new, and of a click-through of that
  -- run, each for the code being promoted and in this order.
  pub check_gate-Promotable :
      (now : ℕ) (ev : Evidence)
      → ((check_gate_detail revs i now (loaded ev)).ok ≡ true) ↔ Promotable revs i now ev
  check_gate-Promotable now ev = (gives now ev, given now ev)
