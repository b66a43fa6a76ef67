-- ===== src/Regression/Known/Verdict.antt =====
-- The verdict text of a run, as the promotion gate reads it.
use data_migration_tool.Prelude.{
  ℕ, ◌+◌, String, ◌≡◌, refl, sym, ap, ◌∙◌, inl, inr, Bool, true, false, ◌&&◌, ◌||◌, Option, List,
  [], ◌∷◌, ◌++◌, map, arith, ◌==◌, eq_iff, nat_beq, Bool-cases, length, is_empty,
}
use data_migration_tool.Prelude.Text.{
  Text, codes, text_eq, has_prefix, has_suffix, has_prefix-append, has_suffix-append,
}
use data_migration_tool.Gate.Evidence.{text, decimal, show, truthy, regression_verdict_passes}
use data_migration_tool.Regression.Known.{
  Kind, Entry, Result, fail, review, classify_issues, before_colon, verdict_of, exit_code_of,
  conclude,
}

passes : Text → Bool
passes t =
    text_eq t (codes "PASS")
    || has_prefix (codes "PASS (no new failures; ") t && has_suffix (codes " known)") t

passes-pass : passes (codes "PASS") ≡ true
unfolding passes text_eq
passes-pass = refl

passes-fail : passes (codes "FAIL") ≡ false
unfolding passes text_eq has_prefix
passes-fail = refl

passes-review : passes (codes "PASS (with review items)") ≡ false
unfolding passes text_eq has_prefix
passes-review = refl

passes-known :
    (d : Text) → passes (codes "PASS (no new failures; " ++ (d ++ codes " known)")) ≡ true
unfolding passes
passes-known d =
    let a = has_prefix-append (codes "PASS (no new failures; ") (d ++ codes " known)") in
    let b : has_suffix (codes " known)") (codes "PASS (no new failures; " ++ (d ++ codes " known)"))
        ≡ true =
      has_suffix-append (codes " known)") (codes "PASS (no new failures; " ++ d) in
    rw (a, b) (ground arith)

passes-verdict_of :
    (m n : ℕ) (a b : Bool) (k : ℕ)
    → (nat_beq m 0 && nat_beq n 0 ≡ true → (a && b) ≡ true)
    → passes (verdict_of m n a b k) ≡ (a && b)
unfolding verdict_of
passes-verdict_of m n a b k h = elim (Bool-cases (nat_beq m 0 && nat_beq n 0)) [
  | inl e ↦ rw (e, verdict_of) (passes-pass ∙ sym (h e))
  | inr e ↦ elim (Bool-cases (a && b)) [
    | inl q ↦ rw (e, q, verdict_of) (passes-known (decimal k))
    | inr q ↦ elim (Bool-cases a) [
      | inl z ↦ rw (e, q, verdict_of, z) passes-review
      | inr z ↦ rw (e, q, verdict_of, z) passes-fail
    ]
  ]
]

passes-empty : passes [] ≡ false
unfolding passes text_eq has_prefix
passes-empty = refl

regression_verdict_passes-passes :
    (v : String) → regression_verdict_passes (text v) ≡ passes (codes v)
unfolding regression_verdict_passes truthy show passes
regression_verdict_passes-passes v = elim (Bool-cases (v == "")) [
  | inl e ↦
      let q : v ≡ "" = (eq_iff v "").0 e in rw e (sym (ap (λ x. passes (codes x)) q ∙ passes-empty))
  | inr e ↦ rw e refl
]

exit_code_zero : (a b : Bool) → nat_beq (exit_code_of a b) 0 ≡ (a && b)
unfolding exit_code_of
exit_code_zero true true = refl
exit_code_zero true false = refl
exit_code_zero false b = refl

no_items :
    (kind : Kind) (prefix : Option Text) (subs : List Text) (entries : List Entry)
    (items : List Text)
    → nat_beq (length items) 0 ≡ true
    → is_empty (classify_issues kind prefix subs entries items).new ≡ true
unfolding classify_issues
no_items kind prefix subs entries [] h = refl
no_items kind prefix subs entries (it ∷ items) h = absurd (ground arith)

-- The promotion gate takes the verdict of a run for a pass exactly when the script exits with 0.
pub conclude-verdict :
    (entries : List Entry) (r : Result) (v : String)
    → codes v ≡ (conclude entries r).verdict
    → regression_verdict_passes (text v) ≡ nat_beq (conclude entries r).exit_code 0
unfolding conclude
conclude-verdict entries r v e =
    let subs = map before_colon r.baseline_regressions in
    let f = classify_issues fail r.prefix subs entries r.failures in
    let w = classify_issues review r.prefix subs entries r.review in
    let h =
      passes-verdict_of (length r.failures) (length r.review) (is_empty f.new) (is_empty w.new)
        (length f.known + length w.known)
        (λ z.
          let a = no_items fail r.prefix subs entries r.failures (ground (arith, z)) in
          let b = no_items review r.prefix subs entries r.review (ground (arith, z)) in
          ground (arith, a, b)) in
    regression_verdict_passes-passes v
    ∙ ap passes e
    ∙ h
    ∙ sym (exit_code_zero (is_empty f.new) (is_empty w.new))
