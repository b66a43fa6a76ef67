-- ===== src/Promote/Order.antt =====
-- The order of the acts: nothing is deployed but after a wait that found the instance idle, and nothing
-- to ATP but after the gate passed.
use data_migration_tool.Prelude.{
  ℕ, zero, suc, ◌+◌, String, inl, inr, Bool, true, false, not, Option, none, some, ◌∷◌, ◌==◌, leb,
  nat_beq, if◌then◌else◌, Bool-cases, Option-cases,
}
use data_migration_tool.Prelude.Text.{Text}
use data_migration_tool.Gate.Evidence.{Value, null, Entry, get, truthy}
use data_migration_tool.Gate.Paths.{Identity}
use data_migration_tool.Prefix.Issued.{Target, local, atp}
use data_migration_tool.Promote.State.{
  Decision-cases, synced_prefix, updated_main, gate_checked, World, State, Stage, ◌>>=◌, pure, stop,
  act, both,
}
use data_migration_tool.Promote.Stages.{
  guarded_deploy, stage_runtime_config, record_evidence, stage_deploy_local, sync_prefix,
  run_regression, assert_prefix_unique, with_unique_prefix, stage_regression_local,
  run_clickthrough, recorded_run, click_and_record, stage_clickthrough_local,
  stage_clickthrough_atp, stage_test_local, enforce_gate, stage_deploy_prod, log_regression_atp,
  stage_test_prod,
}
use data_migration_tool.Promote.Merge.{
  merge_approved, merge_loop, stage_merge, StageName, Args, deploy_local, runtime_config,
  regression_local, clickthrough_local, test_local, gate, merge, deploy_prod, test_prod,
  clickthrough_atp, promote, run_stage, run_promote, main,
}
use data_migration_tool.Promote.Keeps.{
  Ordered, Keeps, follow-Keeps, then-Keeps, if-Keeps, both-Keeps, config-Keeps, guarded-Ordered,
}

module _ (w : World) where
  deploy_local-Keeps : Keeps (stage_deploy_local w)
  unfolding stage_deploy_local record_evidence
  deploy_local-Keeps s o =
      let m = both (guarded_deploy w local) (stage_runtime_config w local) in
      follow-Keeps (m s).0 _ (λ ok s o. o) (m s).1
        (both-Keeps (guarded_deploy w local) (stage_runtime_config w local)
          (λ s o. guarded-Ordered w local s tt o) (config-Keeps w local) s o)

  sync-Keeps : (t : Target) → Keeps (sync_prefix w t)
  unfolding sync_prefix
  sync-Keeps t s o =
      if-Keeps (w.sync_exits t s.did) stop (act (synced_prefix t)) (λ s o. o) (λ s o. o) s o

  regression-Keeps : (t : Target) (p : Option String) → Keeps (run_regression w t p)
  unfolding run_regression
  regression-Keeps t p s o = o

  unique-Keeps : (t : Target) (run : Value) → Keeps (assert_prefix_unique w t run)
  unfolding assert_prefix_unique
  unique-Keeps t run s o = elim (Option-cases (w.run_prefix t run s.did)) [
    | inl e ↦ rw e o
    | inr (q, e) ↦ rw e (if-Keeps (q == "") (pure true) _ (λ s o. o) (λ s o. o) s o)
  ]

  with_unique-Keeps : (t : Target) (res : Entry) → Keeps (with_unique_prefix w t res)
  unfolding with_unique_prefix
  with_unique-Keeps t res =
      if-Keeps (truthy (get res "run_id")) _ (pure res)
        (λ s o.
          follow-Keeps (assert_prefix_unique w t (get res "run_id") s).0 _ (λ b s o. o)
            (assert_prefix_unique w t (get res "run_id") s).1
            (unique-Keeps t (get res "run_id") s o))
        (λ s o. o)

  -- the run and the check of its prefix, behind the sync
  checked_run-Keeps :
      {A : Type 0} (t : Target) (p : Option String) (f : Entry → Stage A)
      → ((e : Entry) → Keeps (f e))
      → Keeps (
          sync_prefix w t >>= λ u. run_regression w t p >>= λ ran. with_unique_prefix w t ran >>= f)
  checked_run-Keeps t p f k =
      then-Keeps (sync_prefix w t)
        (λ u. run_regression w t p >>= λ ran. with_unique_prefix w t ran >>= f) (sync-Keeps t)
        (λ u.
          then-Keeps (run_regression w t p) (λ ran. with_unique_prefix w t ran >>= f)
            (regression-Keeps t p)
            (λ ran. then-Keeps (with_unique_prefix w t ran) f (with_unique-Keeps t ran) k))

  regression_local-Keeps : (p : Option String) → Keeps (stage_regression_local w p)
  unfolding stage_regression_local record_evidence
  regression_local-Keeps p s o = checked_run-Keeps local p _ (λ e s o. o) s o

  click_and_record-Keeps :
      (t : Target) (step : String) (run : Value) (ident : Identity)
      → Keeps (click_and_record w t step run ident)
  unfolding click_and_record run_clickthrough record_evidence
  click_and_record-Keeps t step run ident s o = o

  click_local-Keeps : (run : Value) → Keeps (stage_clickthrough_local w run)
  unfolding stage_clickthrough_local
  click_local-Keeps run s o = elim (Bool-cases (truthy run)) [
    | inl h ↦ rw h (click_and_record-Keeps local "clickthrough_local" run (w.identity s.did) s o)
    | inr h ↦ elim (Bool-cases (truthy (recorded_run w s.store))) [
      | inl k ↦
          rw (h, k)
            (click_and_record-Keeps local "clickthrough_local" (recorded_run w s.store)
              (w.identity s.did) s o)
      | inr k ↦ rw (h, k) o
    ]
  ]

  click_atp-Keeps : (run : Value) → Keeps (stage_clickthrough_atp w run)
  unfolding stage_clickthrough_atp
  click_atp-Keeps run =
      if-Keeps (not (truthy run)) (pure false) _ (λ s o. o)
        (λ s o. click_and_record-Keeps atp "clickthrough_atp" run (w.identity s.did) s o)

  test_local-Keeps : (p : Option String) → Keeps (stage_test_local w p)
  unfolding stage_test_local
  test_local-Keeps p =
      both-Keeps (stage_deploy_local w)
        (both (stage_regression_local w p) (stage_clickthrough_local w null)) deploy_local-Keeps
        (both-Keeps (stage_regression_local w p) (stage_clickthrough_local w null)
          (regression_local-Keeps p) (click_local-Keeps null))

  enforce-Keeps : (stage : String) (override : Option Text) → Keeps (enforce_gate w stage override)
  unfolding enforce_gate
  enforce-Keeps stage override s o = o

  prod_branch :
      (ok : Bool) (s : State)
      → Ordered s.did
      → Ordered
          ((if ok then both (guarded_deploy w atp) (stage_runtime_config w atp) else pure false)
            (record s { did = gate_checked ok ∷ s.did })).1.did
  prod_branch true s o =
      let s' = record s { did = gate_checked true ∷ s.did } in
      follow-Keeps (guarded_deploy w atp s').0 _
        (λ b. if-Keeps b (stage_runtime_config w atp) (pure false) (config-Keeps w atp) (λ s o. o))
        (guarded_deploy w atp s').1 (guarded-Ordered w atp s' tt o)
  prod_branch false s o = o

  deploy_prod-Keeps :
      (agreed : Bool) (override : Option Text) → Keeps (stage_deploy_prod w agreed override)
  unfolding stage_deploy_prod enforce_gate
  deploy_prod-Keeps agreed override =
      if-Keeps (not agreed) (pure false) _ (λ s o. o)
        (λ s o. prod_branch _ (record { store = _; did = updated_main ∷ s.did }) o)

  test_prod-Keeps : (agreed : Bool) (p : Option String) → Keeps (stage_test_prod w agreed p)
  unfolding stage_test_prod log_regression_atp
  test_prod-Keeps agreed p =
      if-Keeps (not agreed) (pure false) _ (λ s o. o)
        (checked_run-Keeps atp p _ (λ e s o.
          if-Keeps (not (truthy (get e "run_id"))) (pure false) _ (λ s o. o)
            (λ s o.
              follow-Keeps (stage_clickthrough_atp w (get e "run_id") s).0 _ (λ b s o. o)
                (stage_clickthrough_atp w (get e "run_id") s).1
                (click_atp-Keeps (get e "run_id") s o))
            _ o))

  approved-Keeps : (pr : ℕ) → Keeps (merge_approved w pr)
  unfolding merge_approved
  approved-Keeps pr s o = o

  merge_loop-Keeps : (pr deadline fuel n : ℕ) → Keeps (merge_loop w pr deadline fuel n)
  unfolding merge_loop
  merge_loop-Keeps pr deadline zero n s o = o
  merge_loop-Keeps pr deadline (suc fuel) n s o =
      if-Keeps (not (leb n deadline)) (pure false) _ (λ s o. o)
        (if-Keeps (w.pr_state pr n).0 (pure true) _ (λ s o. o)
          (λ s o. elim (Decision-cases (w.pr_state pr n).1) [
            | inl e ↦ rw e o
            | inr (inl e) ↦ rw e (approved-Keeps pr s o)
            | inr (inr e) ↦ rw e (
                if-Keeps (nat_beq n deadline) (pure false) _ (λ s o. o)
                  (merge_loop-Keeps pr deadline fuel (n + 30)) s o)
          ]))
        s o

  merge-Keeps : (pr : Option ℕ) (wait_min : ℕ) → Keeps (stage_merge w pr wait_min)
  unfolding stage_merge
  merge-Keeps none wait_min = λ s o. o
  merge-Keeps (some pr) wait_min =
      if-Keeps (nat_beq pr 0) (pure true) _ (λ s o. o) (merge_loop-Keeps pr _ _ 0)

  promote-Keeps : (a : Args) → Keeps (run_promote w a)
  unfolding run_promote
  promote-Keeps a = both-Keeps (stage_test_local w a.pipelines) _ (test_local-Keeps a.pipelines) (
      both-Keeps (stage_merge w a.pr 15) _ (merge-Keeps a.pr 15) (
        both-Keeps (stage_deploy_prod w a.agreed none) (stage_test_prod w a.agreed a.pipelines)
          (deploy_prod-Keeps a.agreed none) (test_prod-Keeps a.agreed a.pipelines)))

  stage-Keeps : (stage : StageName) (a : Args) → Keeps (run_stage w stage a)
  unfolding run_stage
  stage-Keeps deploy_local a = deploy_local-Keeps
  stage-Keeps runtime_config a =
      if-Keeps _ (pure false) (stage_runtime_config w a.target) (λ s o. o) (config-Keeps w a.target)
  stage-Keeps regression_local a = regression_local-Keeps a.pipelines
  stage-Keeps clickthrough_local a = click_local-Keeps a.run_id
  stage-Keeps test_local a = test_local-Keeps a.pipelines
  stage-Keeps gate a = enforce-Keeps "gate (check only)" none
  stage-Keeps merge a = merge-Keeps a.pr 15
  stage-Keeps deploy_prod a = deploy_prod-Keeps a.agreed a.owner_override
  stage-Keeps test_prod a = test_prod-Keeps a.agreed a.pipelines
  stage-Keeps clickthrough_atp a = click_atp-Keeps a.run_id
  stage-Keeps promote a = promote-Keeps a

  -- Whatever stage is asked for and however its parts answer, no database or APEX deploy is made but
  -- straight after a wait that found the instance idle, and none to ATP but straight after the gate
  -- passed.
  pub main-Ordered : (a : Args) (s : State) → Ordered s.did → Ordered (main w a s).1.did
  unfolding main
  main-Ordered a =
      if-Keeps _ (pure false) (run_stage w a.stage a) (λ s o. o) (stage-Keeps a.stage a)
