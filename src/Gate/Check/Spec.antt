-- ===== src/Gate/Check/Spec.antt =====
-- What the owner's rule asks of the evidence before a promotion, independently of the order in
-- which the gate checks it.
use data_migration_tool.Prelude.{
  ℕ, ◌+◌, ◌*◌, ◌≤◌, String, ◌≡◌, ◌≢◌, ◌⊎◌, true, false, none, some, is_empty, any, All,
}
use data_migration_tool.Prelude.Text.{codes, text_eq}
use data_migration_tool.Gate.Evidence.{
  Value, Entry, get, truthy, is_text, is_zero, show, parse_time, regression_verdict_passes,
  Evidence, step_of,
}
use data_migration_tool.Gate.Paths.{Identity}
use data_migration_tool.Gate.SameCode.{Revisions, evidence_code_tree}
use data_migration_tool.Gate.Check.{
  full_pipelines, pipelines_ran, is_local_console, is_empty_evidence,
}

-- every pipeline of the full set is among those that the run covered
abbrev pub Covers : Value → Type 0
Covers v = All (λ p. any (λ q. text_eq (codes p) q) (pipelines_ran v) ≡ true) full_pipelines

module _ (revs : Revisions) (ident : Identity) where
  -- the evidence is for this commit, for a commit with the same tree, or for one with the same code
  pub data IsSameCode (e : Entry) : Type 0 where
    by_commit : is_text (get e "commit") ident.commit ≡ true → IsSameCode e
    by_tree : truthy (get e "tree") ≡ true → is_text (get e "tree") ident.tree ≡ true → IsSameCode e
    by_code_tree :
        (hash : String)
        → ident.code_tree ≡ some hash
        → hash ≢ ""
        → is_text (evidence_code_tree revs e) hash ≡ true
        → IsSameCode e

  pub record Deployed (dep : Entry) : Type 0 where
    pub present : is_empty dep ≡ false
    pub same : IsSameCode dep
    pub clean : truthy (get dep "ok") ≡ true
    pub committed : truthy (get dep "dirty") ≡ false

  -- the run ended within the last 24 hours (with 5 minutes for clocks that differ), and the deploy
  -- that it tested came before it
  pub record Timely (now : ℕ) (dep reg : Entry) : Type 0 where
    pub end : ℕ
    pub finished : parse_time (get reg "finished_at") ≡ some end
    pub recent : now ≤ end + 24 * 3600
    pub past : end ≤ now + 300
    pub deployed_first :
        (at : ℕ)
        → is_empty dep ≡ false
        → parse_time (get dep "at") ≡ some at
        → (start : ℕ)
        → (parse_time (get reg "started_at") ≡ some start)
          ⊎ ((parse_time (get reg "started_at") ≡ none) × (start ≡ end))
        → at ≤ start

  pub record Regressed (now : ℕ) (dep reg : Entry) : Type 0 where
    pub present : is_empty reg ≡ false
    pub same : IsSameCode reg
    pub on_local : is_text (get reg "target") "local" ≡ true
    pub full : Covers (get reg "pipelines")
    pub exit_code : is_zero (get reg "exit_code") ≡ true
    pub verdict : regression_verdict_passes (get reg "verdict") ≡ true
    pub no_new_failures : truthy (get reg "new_failures") ≡ false
    pub no_new_review : truthy (get reg "new_review") ≡ false
    pub committed : truthy (get reg "dirty") ≡ false
    pub run_id : truthy (get reg "run_id") ≡ true
    pub timely : Timely now dep reg

  pub record ClickedThrough (now : ℕ) (reg ct : Entry) : Type 0 where
    pub present : is_empty ct ≡ false
    pub same : IsSameCode ct
    pub same_run : is_empty reg ≡ false → show (get ct "run_id") ≡ show (get reg "run_id")
    pub local_console : is_local_console (get ct "base_url") ≡ true
    pub exit_code : is_zero (get ct "exit_code") ≡ true
    pub verdict : is_text (get ct "verdict") "PASS" ≡ true
    pub committed : truthy (get ct "dirty") ≡ false
    pub at : ℕ
    pub ran : parse_time (get ct "at") ≡ some at
    pub recent : now ≤ at + 24 * 3600
    pub after_run : (end : ℕ) → parse_time (get reg "finished_at") ≡ some end → end ≤ at

  pub record Promotable (now : ℕ) (ev : Evidence) : Type 0 where
    pub clean_tree : ident.dirty ≡ false
    pub evidence : is_empty_evidence ev ≡ false
    pub deployed : Deployed (step_of ev.steps "deploy_local")
    pub regressed : Regressed now (step_of ev.steps "deploy_local") (step_of ev.steps "regression")
    pub clicked :
        ClickedThrough now (step_of ev.steps "regression") (step_of ev.steps "clickthrough_local")
