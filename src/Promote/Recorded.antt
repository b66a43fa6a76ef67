-- ===== src/Promote/Recorded.antt =====
-- What a local regression that passes has seen.
use data_migration_tool.Prelude.{
  String, ◌≡◌, refl, sym, ap, ◌∙◌, inl, inr, Bool, true, false, ◌&&◌, Option, some, ◌∷◌, ◌==◌,
  if◌then◌else◌, Bool-cases, Option-cases, &&-true, is_empty,
}
use data_migration_tool.Gate.Evidence.{
  Value, flag, Entry, get, put, truthy, is_zero, regression_verdict_passes,
}
use data_migration_tool.Prefix.Issued.{Target, local}
use data_migration_tool.Promote.State.{synced_prefix, ran_regression, Summary, World, State, done}
use data_migration_tool.Promote.Stages.{
  regression_entry, run_regression, assert_prefix_unique, with_unique_prefix, sync_prefix,
  record_evidence, stage_regression_local, other_target,
}

-- no run of the other instance has the prefix of the run, if it has one
abbrev pub PrefixUnique : World → Target → Value → State → Type 0
PrefixUnique w t run s =
    (q : String)
    → w.run_prefix t run s.did ≡ some q
    → (q == "") ≡ false
    → is_empty (w.prefix_used_on (other_target t) q s.did) ≡ true

unique_done :
    (w : World) (t : Target) (run : Value) (s : State)
    → (b : Bool) × (assert_prefix_unique w t run s ≡ (done b, s))
      × (b ≡ true → PrefixUnique w t run s)
unfolding assert_prefix_unique
unique_done w t run s = elim (Option-cases (w.run_prefix t run s.did)) [
  | inl e ↦ (true, rw e refl, (λ h q k z. absurd (cc)))
  | inr (q, e) ↦ elim (Bool-cases (q == "")) [
    | inl z ↦ (
      true,
      rw (e, z) refl,
      (λ h p k y. let same : q ≡ p = cc in absurd (cc (z, y, ap (λ x. x == "") same))),
    )
    | inr z ↦ (
      is_empty (w.prefix_used_on (other_target t) q s.did),
      rw (e, z) refl,
      (λ h p k y.
          let same : q ≡ p = cc in
          ap (λ x. is_empty (w.prefix_used_on (other_target t) x s.did)) (sym same) ∙ h),
    )
  ]
]

module _ (w : World) (t : Target) (p : Option String) (m : Summary) (sha : Value) where
  abbrev Checked : Bool → Entry
  Checked b =
      if b
      then regression_entry w t p m sha
      else put "ok" (flag false) (regression_entry w t p m sha)

  -- the "ok" of the entry once the prefix is checked
  ok_of :
      (b : Bool)
      → truthy (get (Checked b) "ok") ≡ (b && (is_zero m.rc && regression_verdict_passes m.verdict))
  unfolding regression_entry get put truthy
  ok_of true = refl
  ok_of false = refl

  run_of : get (regression_entry w t p m sha) "run_id" ≡ m.run_id
  unfolding regression_entry get
  run_of = refl

  entry_checked :
      (s : State)
      → (b : Bool) × (with_unique_prefix w t (regression_entry w t p m sha) s
          ≡ (done (Checked b), s))
        × (b ≡ true → truthy m.run_id ≡ true → PrefixUnique w t m.run_id s)
  unfolding with_unique_prefix
  entry_checked s = elim (Bool-cases (truthy m.run_id)) [
    | inr h ↦ (true, rw (run_of, h) refl, (λ x y. absurd (cc)))
    | inl h ↦
        let (b, e, u) = unique_done w t m.run_id s in (b, rw (run_of, h, e) refl, (λ x y. u x))
  ]

-- A local regression stage that passes has synced the prefix first, and then seen the harness exit with
-- 0 and a verdict that passes; and if the summary names the run and that run has a prefix, no run of the
-- other instance has that prefix. Without a run id or a prefix nothing is compared.
pub stage_regression_local-PrefixUnique :
    (w : World) (p : Option String) (s : State)
    → (stage_regression_local w p s).0 ≡ done true
    → let h = synced_prefix local ∷ s.did in
      (is_zero (w.summary local p h).rc ≡ true)
      × (regression_verdict_passes (w.summary local p h).verdict ≡ true)
      × (truthy (w.summary local p h).run_id ≡ true
          → PrefixUnique w local
              (w.summary local p h).run_id
              (record s { did = ran_regression local ∷ h }))
unfolding stage_regression_local sync_prefix run_regression record_evidence
stage_regression_local-PrefixUnique w p s h = elim (Bool-cases (w.sync_exits local s.did)) [
  | inl f ↦ absurd (let z = rw (f, stage_regression_local) at h in cc)
  | inr f ↦
      let did = ran_regression local ∷ synced_prefix local ∷ s.did in
      let m = w.summary local p (synced_prefix local ∷ s.did) in
      let sha = w.known_issues_sha did in
      let (b, e, u) = entry_checked w local p m sha (record s { did = did }) in
      let z = rw (f, stage_regression_local, e) at h in
      let k : truthy (get (Checked w local p m sha b) "ok") ≡ true = cc in
      let (x, y) = &&-true b _ (sym (ok_of w local p m sha b) ∙ k) in
      let (r, v) = &&-true (is_zero m.rc) (regression_verdict_passes m.verdict) y in (r, v, u x)
]
