-- ===== src/Regression/Evaluate/Sound.antt =====
-- What an evaluation without failures says of the run.
use data_migration_tool.Prelude.{
  is_empty-map, ℕ, nat_beq, ◌≡◌, refl, sym, ap, ◌∙◌, inl, inr, Bool, true, false, Option, none,
  some, List, [], ◌∷◌, ◌++◌, map, Bool-cases, Option-cases, is_empty, All,
}
use data_migration_tool.Prelude.Text.{Text, codes, text_eq}
use data_migration_tool.Regression.Rows.Counts.{PerObj, record_failures, tally_all}
use data_migration_tool.Regression.Rows.Clean.{Meets, record_failures-Meets}
use data_migration_tool.Regression.Baseline.{
  BaselineArg, Base, find, now_of, tally_bases, regressions,
}
use data_migration_tool.Regression.Baseline.NotWorse.{NotWorse, regressions-NotWorse}
use data_migration_tool.Regression.Expect.{Spec, Checked, exits, checked, resolve_expectations}
use data_migration_tool.Regression.Messages.{message, selection_message, regression_text}
use data_migration_tool.Regression.Sweep.{QueueRow, queue_row, queue_rollup, JobRow, job_failures}
use data_migration_tool.Regression.Waiting.{is_one_of, terminal_queue_statuses}
use data_migration_tool.Regression.Known.{Result}
use data_migration_tool.Regression.Evaluate.{
  RunInfo, Db, as_record, status_failures, selection, baseline_id, baseline_texts,
  baseline_failures, evaluate_run, evaluate,
}

-- DONE or SKIPPED
abbrev pub QueueEnded : QueueRow → Type 0
QueueEnded r =
    (is_one_of ("FAILED" ∷ "CANCELLED" ∷ []) r.wstatus ≡ false)
    × (is_one_of terminal_queue_statuses r.wstatus ≡ true)

queue_row-QueueEnded :
    (r : QueueRow) (q : List QueueRow)
    → is_empty (queue_row r (queue_rollup q)).failures ≡ true
    → QueueEnded r × (is_empty (queue_rollup q).failures ≡ true)
unfolding queue_row
queue_row-QueueEnded r q h = elim (Bool-cases (is_one_of ("FAILED" ∷ "CANCELLED" ∷ []) r.wstatus)) [
  | inl a ↦ absurd (cc (rw a at h))
  | inr a ↦ elim (Bool-cases (is_one_of terminal_queue_statuses r.wstatus)) [
    | inr b ↦ absurd (cc (rw (a, b) at h))
    | inl b ↦ elim (Bool-cases (text_eq r.wstatus (codes "SKIPPED"))) [
      | inl c ↦ ((a, b), rw (a, b, c) at h)
      | inr c ↦ ((a, b), rw (a, b, c) at h)
    ]
  ]
]

queue_rollup-QueueEnded :
    (q : List QueueRow) → is_empty (queue_rollup q).failures ≡ true → All QueueEnded q
unfolding queue_rollup
queue_rollup-QueueEnded [] h = tt
queue_rollup-QueueEnded (r ∷ q) h =
    let (a, b) = queue_row-QueueEnded r q h in (a, queue_rollup-QueueEnded q b)

-- the tallies of the baseline run
abbrev pub bases_of : Db → Spec → ℕ → List (Text × Base)
bases_of db spec b =
    tally_bases (resolve_expectations db.staging spec (map as_record (db.base_rows b)) []).0
      (db.base_rows b) []

-- every sub-object with rows in the baseline has as many good rows loaded, and no more good rows failed
-- or bad rows loaded
abbrev pub NoneWorse : PerObj → List (Text × Base) → Type 0
NoneWorse per base =
    (sub : Text) (was : Base)
    → find sub base ≡ some was
    → nat_beq was.total 0 ≡ false
    → NotWorse was (now_of sub per)

-- What an evaluation without failures says. The run is compared only where `baseline_id` finds a
-- baseline: not in FAILED mode, with --baseline none or without an earlier run.
pub record Sound (db : Db) (id : ℕ) (arg : BaselineArg) : Type 0 where
  pub info : RunInfo
  pub spec : Spec
  pub run_found : db.run ≡ some info
  pub spec_read : db.spec ≡ checked spec
  pub completed : is_one_of ("COMPLETED" ∷ "COMPLETED_ERRORS" ∷ []) info.run_status ≡ true
  pub queue_ended : All QueueEnded db.queue
  pub records_meet : All (Meets (resolve_expectations db.staging spec db.records []).0) db.records
  pub jobs_succeeded : is_empty db.jobs ≡ true
  pub none_worse :
      (b : ℕ)
      → baseline_id db id arg info ≡ some b
      → NoneWorse
          (tally_all (resolve_expectations db.staging spec db.records []).0 db.records [])
          (bases_of db spec b)

completed_status :
    (info : RunInfo)
    → is_empty (status_failures info) ≡ true
    → is_one_of ("COMPLETED" ∷ "COMPLETED_ERRORS" ∷ []) info.run_status ≡ true
unfolding status_failures
completed_status info h =
    elim (Bool-cases (is_one_of ("COMPLETED" ∷ "COMPLETED_ERRORS" ∷ []) info.run_status)) [
      | inl a ↦ a
      | inr a ↦ absurd (cc (rw a at h))
    ]

no_jobs : (js : List JobRow) → is_empty (job_failures js) ≡ true → is_empty js ≡ true
unfolding job_failures
no_jobs [] h = refl
no_jobs (j ∷ js) h = absurd (cc)

baseline-NoneWorse :
    (db : Db) (spec : Spec) (per : PerObj) (o : Option ℕ)
    → is_empty (baseline_failures o (baseline_texts db spec per o)) ≡ true
    → (b : ℕ) → o ≡ some b
    → NoneWorse per (bases_of db spec b)
unfolding baseline_failures baseline_texts
baseline-NoneWorse db spec per none h b e = absurd (cc)
baseline-NoneWorse db spec per (some c) h b e =
    let none_found : is_empty (regressions per (bases_of db spec c)) ≡ true =
      sym (is_empty-map regression_text (regressions per (bases_of db spec c)))
      ∙ sym (is_empty-map _ (map regression_text (regressions per (bases_of db spec c))))
      ∙ h in
    let same : c ≡ b = cc in
    rw same at ((regressions-NotWorse per (bases_of db spec c)).0 none_found)

append_empty :
    {A : Type 0} (k l : List A)
    → is_empty (k ++ l) ≡ true
    → (is_empty k ≡ true) × (is_empty l ≡ true)
append_empty [] l h = (refl, h)
append_empty (a ∷ k) l h = absurd (cc)

evaluate_run-Sound :
    (db : Db) (id : ℕ) (arg : BaselineArg) (info : RunInfo) (spec : Spec)
    → db.run ≡ some info
    → db.spec ≡ checked spec
    → is_empty (evaluate_run db id arg info spec).failures ≡ true
    → Sound db id arg
unfolding evaluate_run
evaluate_run-Sound db id arg info spec e f h =
    let exp = (resolve_expectations db.staging spec db.records []).0 in
    let absent =
      (selection db info spec (resolve_expectations db.staging spec db.records []).1).1 in
    let (s, h1) = append_empty (status_failures info) _ h in
    let (q, h2) = append_empty (queue_rollup db.queue).failures _ h1 in
    let (sel, h3) =
      append_empty
        (map (selection_message info.scenario)
          (selection db info spec (resolve_expectations db.staging spec db.records []).1).0)
        _ h2 in
    let (rec, h4) = append_empty (map message (record_failures exp absent db.records)) _ h3 in
    let (jobs, base) = append_empty (job_failures db.jobs) _ h4 in
    record {
      info = info;
      spec = spec;
      run_found = e;
      spec_read = f;
      completed = completed_status info s;
      queue_ended = queue_rollup-QueueEnded db.queue q;
      records_meet =
          ((record_failures-Meets exp absent db.records).0
            (sym (is_empty-map message (record_failures exp absent db.records)) ∙ rec)).1;
      jobs_succeeded = no_jobs db.jobs jobs;
      none_worse =
          baseline-NoneWorse db spec (tally_all exp db.records []) (baseline_id db id arg info)
            base;
    }

spec-Sound :
    (db : Db) (id : ℕ) (arg : BaselineArg) (info : RunInfo) (sp : Checked Spec) (r : Result)
    → db.run ≡ some info
    → db.spec ≡ sp
    → (elim sp [ exits b ↦ exits b | checked spec ↦ checked (evaluate_run db id arg info spec) ])
      ≡ checked r
    → is_empty r.failures ≡ true
    → Sound db id arg
spec-Sound db id arg info (exits b) r e f g h = absurd (cc)
spec-Sound db id arg info (checked spec) r e f g h =
    let same : evaluate_run db id arg info spec ≡ r = cc in
    evaluate_run-Sound db id arg info spec e f (ap (λ (x : Result). is_empty x.failures) same ∙ h)

reports_none : Checked Result → Bool
reports_none (exits b) = true
reports_none (checked r) = is_empty r.failures

not_found-failures :
    (db : Db) (id : ℕ) (arg : BaselineArg) (r : Result)
    → db.run ≡ none
    → evaluate db id arg ≡ checked r
    → is_empty r.failures ≡ true
    → ⊥
unfolding evaluate reports_none
not_found-failures db id arg r n e h = let k = ap reports_none (rw (n, evaluate) at e) in cc (k, h)

-- An evaluation that reports no failure is of a run that completed, in which every work item is DONE or
-- SKIPPED, every record meets the pass criteria and no job failed; and where the run is compared with a
-- baseline run, no sub-object with rows there has fewer good rows loaded, more good rows failed or more bad
-- rows loaded. There is no comparison in FAILED mode, with --baseline none or without an earlier run.
pub evaluate-Sound :
    (db : Db) (id : ℕ) (arg : BaselineArg) (r : Result)
    → evaluate db id arg ≡ checked r
    → is_empty r.failures ≡ true
    → Sound db id arg
unfolding evaluate
evaluate-Sound db id arg r e h = elim (Option-cases db.run) [
  | inl n ↦ absurd (not_found-failures db id arg r n e h)
  | inr (info, n) ↦ spec-Sound db id arg info db.spec r n refl (rw (n, evaluate) at e) h
]
