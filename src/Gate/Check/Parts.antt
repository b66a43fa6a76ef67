-- ===== src/Gate/Check/Parts.antt =====
-- Each part of the gate fails exactly when its requirement does not hold.
use data_migration_tool.Prelude.{
  ℕ, ◌+◌, ◌*◌, ◌≡◌, inl, inr, Bool, true, false, not, ◌&&◌, ◌||◌, Option, none, some, arith, eq_iff,
  ltb, Bool-cases, Option-cases, &&-true, is_empty,
}
use data_migration_tool.Prelude.Text.{text_eq}
use data_migration_tool.Gate.Evidence.{Entry, get, truthy, is_text, is_zero, show, parse_time}
use data_migration_tool.Gate.Paths.{Identity}
use data_migration_tool.Gate.Report.{Group, Reason, How, Report, fail_if}
use data_migration_tool.Gate.SameCode.{Revisions, same_code, judge}
use data_migration_tool.Gate.Check.{
  missing_pipelines, is_local_console, check_deploy, check_verdict, check_age, check_order,
  check_regression, check_click_time, check_click_result, check_clickthrough, deployed_late,
  did_not_pass, before_end,
}
use data_migration_tool.Gate.Check.Spec.{IsSameCode, by_commit, by_tree, by_code_tree}

fail_if-ok :
    (c : Bool) (g : Group) (why : Reason) (r : Report) → (fail_if c g why r).ok ≡ (r.ok && not c)
unfolding fail_if
fail_if-ok c g why r = ground arith

judge-ok : (g : Group) (v : Bool × How) (r : Report) → (judge g v r).ok ≡ (r.ok && v.0)
unfolding judge
judge-ok g (same, how) r = ground arith

check_verdict-ok :
    (reg : Entry) (r : Report) → (check_verdict reg r).ok ≡ (r.ok && not (did_not_pass reg))
unfolding check_verdict
check_verdict-ok reg r = ground arith

pub same_code_of :
    (revs : Revisions) (e : Entry) (i : Identity)
    → (same_code revs e i).0 ≡ true
    → IsSameCode revs i e
unfolding same_code
same_code_of revs e i h = elim (Bool-cases (is_text (get e "commit") i.commit)) [
  | inl a ↦ by_commit a
  | inr a ↦ elim (Bool-cases (truthy (get e "tree") && is_text (get e "tree") i.tree)) [
    | inl b ↦
        let (c, d) = &&-true (truthy (get e "tree")) (is_text (get e "tree") i.tree) b in
        by_tree c d
    | inr b ↦ elim (Option-cases i.code_tree) [
      | inl c ↦ absurd (ground arith)
      | inr (hash, c) ↦
          by_code_tree hash c (λ k. ground (arith, eq_iff hash "")) (ground (arith, eq_iff hash ""))
    ]
  ]
]

pub of_same_code :
    (revs : Revisions) (e : Entry) (i : Identity)
    → IsSameCode revs i e
    → (same_code revs e i).0 ≡ true
unfolding same_code
of_same_code revs e i (by_commit h) = ground arith
of_same_code revs e i (by_tree h k) = ground arith
of_same_code revs e i (by_code_tree hash h n k) = ground (arith, eq_iff hash "")

pub check_deploy-ok :
    (revs : Revisions) (i : Identity) (dep : Entry) (r : Report)
    → (check_deploy revs i dep r).ok ≡ (
        r.ok
        && not (is_empty dep)
        && (same_code revs dep i).0
        && truthy (get dep "ok")
        && not (truthy (get dep "dirty")))
unfolding check_deploy
check_deploy-ok revs i dep r = elim (Bool-cases (is_empty dep)) [
  | inl h ↦ rw h (ground arith)
  | inr h ↦ rw h (simp (fail_if-ok, judge-ok) (ground arith))
]

abbrev pub in_time : ℕ → Option ℕ → Bool
in_time now none = false
in_time now (some reg_end) = not (ltb (reg_end + 24 * 3600) now) && not (ltb (now + 300) reg_end)

check_age-ok :
    (now : ℕ) (reg : Entry) (o : Option ℕ) (r : Report)
    → (check_age now reg o r).ok ≡ (r.ok && in_time now o)
unfolding check_age
check_age-ok now reg none r = ground arith
check_age-ok now reg (some t) r = ground arith

abbrev pub in_order : Entry → Entry → Option ℕ → Bool
in_order dep reg none = true
in_order dep reg (some reg_end) = not (
    not (is_empty dep)
    && deployed_late (parse_time (get dep "at")) (parse_time (get reg "started_at")) reg_end)

check_order-ok :
    (dep reg : Entry) (o : Option ℕ) (r : Report)
    → (check_order dep reg o r).ok ≡ (r.ok && in_order dep reg o)
unfolding check_order
check_order-ok dep reg none r = ground arith
check_order-ok dep reg (some t) r = rw fail_if-ok

pub check_regression-ok :
    (revs : Revisions) (i : Identity) (now : ℕ) (dep reg : Entry) (r : Report)
    → is_empty reg ≡ false
    → (check_regression revs i now dep reg r).ok ≡ (
        ((((((((r.ok && (same_code revs reg i).0) && not (not (is_text (get reg "target") "local")))
                    && not (not (is_empty (missing_pipelines (get reg "pipelines")))))
                  && not (did_not_pass reg))
                && not (truthy (get reg "dirty")))
              && not (not (truthy (get reg "run_id"))))
            && in_time now (parse_time (get reg "finished_at")))
          && in_order dep reg (parse_time (get reg "finished_at"))))
unfolding check_regression
check_regression-ok revs i now dep reg r h =
    rw h (simp (check_order-ok, check_age-ok, fail_if-ok, check_verdict-ok, judge-ok))

check_click_time-ok :
    (now : ℕ) (reg ct : Entry) (o : Option ℕ) (r : Report)
    → (check_click_time now reg ct o r).ok ≡ (
        r.ok && elim o [
          | none ↦ false
          | some t ↦
              not (ltb (t + 24 * 3600) now)
              && not (before_end t (parse_time (get reg "finished_at")))
        ])
unfolding check_click_time
check_click_time-ok now reg ct none r = ground arith
check_click_time-ok now reg ct (some t) r = simp fail_if-ok (ground arith)

check_click_result-ok :
    (ct : Entry) (r : Report)
    → (check_click_result ct r).ok ≡ (
        r.ok && not (not (is_zero (get ct "exit_code")) || not (is_text (get ct "verdict") "PASS")))
unfolding check_click_result
check_click_result-ok ct r = ground arith

pub check_clickthrough-ok :
    (revs : Revisions) (i : Identity) (now : ℕ) (reg ct : Entry) (r : Report)
    → is_empty ct ≡ false
    → (check_clickthrough revs i now reg ct r).ok ≡ (
        (((((r.ok && (same_code revs ct i).0)
                && not (
                    not (is_empty reg)
                    && not (text_eq (show (get ct "run_id")) (show (get reg "run_id")))))
              && not (not (is_local_console (get ct "base_url"))))
            && not (not (is_zero (get ct "exit_code")) || not (is_text (get ct "verdict") "PASS")))
          && not (truthy (get ct "dirty")))
        && elim (parse_time (get ct "at")) [
          | none ↦ false
          | some t ↦
              not (ltb (t + 24 * 3600) now)
              && not (before_end t (parse_time (get reg "finished_at")))
        ])
unfolding check_clickthrough
check_clickthrough-ok revs i now reg ct r h =
    rw h (simp (check_click_time-ok, fail_if-ok, check_click_result-ok, judge-ok))

pub check_regression-missing :
    (revs : Revisions) (i : Identity) (now : ℕ) (dep reg : Entry) (r : Report)
    → is_empty reg ≡ true
    → (check_regression revs i now dep reg r).ok ≡ false
unfolding check_regression
check_regression-missing revs i now dep reg r h = rw h

pub check_clickthrough-missing :
    (revs : Revisions) (i : Identity) (now : ℕ) (reg ct : Entry) (r : Report)
    → is_empty ct ≡ true
    → (check_clickthrough revs i now reg ct r).ok ≡ false
unfolding check_clickthrough
check_clickthrough-missing revs i now reg ct r h = rw h
