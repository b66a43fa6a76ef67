-- ===== src/Deploy/Code/File.antt =====
-- What the deploy of one file of scripts/dmt_deploy.py has done when it ends.
use mathlib.Core.List.{append-nil}
use data_migration_tool.Prelude.{
  String, ◌≡◌, refl, sym, ◌⊎◌, inl, inr, true, false, Option, none, some, List, [], ◌∷◌, ◌++◌,
  Bool-cases, is_empty, All,
}
use data_migration_tool.Prelude.Text.{Text}
use data_migration_tool.Deploy.{End, exits_code, exits_text, end_code}
use data_migration_tool.Deploy.Objects.{is_code, has_table_ddl, created_object}
use data_migration_tool.Deploy.Split.{Kind, split_script}
use data_migration_tool.Deploy.Code.{
  Source, outside_repo, missing, contents, executed, rolled_back, History, World, Progress, going,
  stopped, compiled, run_statements, check_made, run_script, deploy_raw, deploy_file,
}

abbrev pub name_of : Option (List String × Text) → List Text
name_of none = []
name_of (some (types, name)) = name ∷ []

Sum-cases : {A B : Type 0} (x : A ⊎ B) → ((a : A) × (x ≡ inl a)) ⊎ ((b : B) × (x ≡ inr b))
Sum-cases (inl a) = inl (a, refl)
Sum-cases (inr b) = inr (b, refl)

pub Source-cases :
    (x : Source) → ((raw : Text) × (x ≡ contents raw)) ⊎ ((x ≡ outside_repo) ⊎ (x ≡ missing))
Source-cases (contents raw) = inl (raw, refl)
Source-cases outside_repo = inr (inl refl)
Source-cases missing = inr (inr refl)

module _ (w : World) where
  -- the database accepts every statement in turn, and each object that one makes compiles
  pub data Ran : List (Kind × Text) → List Text → History → List Text → History → Type 0 where
    all_ran : {made : List Text} {h : History} → Ran [] made h made h
    ran :
        {kind : Kind} {stmt : Text} {stmts : List (Kind × Text)} {made made' : List Text}
        {h g : History}
        → w.accepts h stmt ≡ true
        → All
            (λ n. is_empty (w.compile_errors (executed stmt ∷ h) n) ≡ true)
            (name_of (created_object stmt))
        → Ran stmts (made ++ name_of (created_object stmt)) (executed stmt ∷ h) made' g
        → Ran ((kind, stmt) ∷ stmts) made h made' g

  -- each file is a code file without table DDL; its statements ran, and when all of them had run no object
  -- that it made had compile errors
  pub data Deployed : List Text → History → History → Type 0 where
    all_deployed : {h : History} → Deployed [] h h
    deployed :
        {path : Text} {paths : List Text} {h k : History} (raw : Text) (stmts : List (Kind × Text))
        (made : List Text) (g : History)
        → w.source path ≡ contents raw
        → is_code raw ≡ true
        → has_table_ddl raw ≡ false
        → split_script raw ≡ inr stmts
        → Ran stmts [] h made g
        → All (λ n. is_empty (w.compile_errors g n) ≡ true) made
        → Deployed paths g k
        → Deployed (path ∷ paths) h k

  -- statements were executed and rollbacks called, and `commit` was not
  pub data NoCommit (h : History) : History → Type 0 where
    unchanged : NoCommit h h
    and_executed : {g : History} {stmt : Text} → NoCommit h g → NoCommit h (executed stmt ∷ g)
    and_rolled_back : {g : History} → NoCommit h g → NoCommit h (rolled_back ∷ g)

  pub NoCommit-trans : {h g k : History} → NoCommit h g → NoCommit g k → NoCommit h k
  NoCommit-trans p unchanged = p
  NoCommit-trans p (and_executed q) = and_executed (NoCommit-trans p q)
  NoCommit-trans p (and_rolled_back q) = and_rolled_back (NoCommit-trans p q)

  -- the part goes on with what P says, or it stops with exit code 1
  abbrev Ends {ℓ} : {A : Type ℓ} → (A → History → Type 0) → History → Progress A → Type ℓ
  Ends {A = A} P h r =
      ((a : A) × (g : History) × (r ≡ going a g) × P a g × NoCommit h g)
      ⊎ ((e : End) × (g : History) × (r ≡ stopped e g) × (end_code e ≡ some 1) × NoCommit h g)

  -- what stopped later had started earlier
  stopped_later :
      {A : Type 0} {P Q : A → History → Type 0} {h g : History} {r : Progress A}
      → NoCommit h g
      → ((a : A) (k : History) → P a k → Q a k)
      → Ends P g r
      → Ends Q h r
  stopped_later u f (inl (a, k, q, p, v)) = inl (a, k, q, f a k p, NoCommit-trans u v)
  stopped_later u f (inr (e, k, q, c, v)) = inr (e, k, q, c, NoCommit-trans u v)

  equal_to :
      {A : Type 0} {P : A → History → Type 0} {h : History} {r s : Progress A}
      → r ≡ s
      → Ends P h s
      → Ends P h r
  equal_to e x = rw e x

  failed :
      {A : Type 0} {P : A → History → Type 0} {h : History} (r : Progress A)
      → r ≡ stopped (exits_code 1) (rolled_back ∷ h)
      → Ends P h r
  failed r q =
      inr (exits_code 1, rolled_back ∷ _, q, unfold end_code in refl, and_rolled_back unchanged)

  refused :
      {A : Type 0} {P : A → History → Type 0} {h : History} (r : Progress A) (t : Text)
      → r ≡ stopped (exits_text t) h
      → Ends P h r
  refused r t q = inr (exits_text t, _, q, unfold end_code in refl, unchanged)

  compiled-cases :
      (o : Option (List String × Text)) (h : History) (made : List Text)
      → ((compiled w o h made ≡ going (made ++ name_of o) h)
          × All (λ n. is_empty (w.compile_errors h n) ≡ true) (name_of o))
        ⊎ (compiled w o h made ≡ stopped (exits_code 1) (rolled_back ∷ h))
  unfolding compiled
  compiled-cases none h made = inl (rw append-nil refl, tt)
  compiled-cases (some (types, name)) h made =
      elim (Bool-cases (is_empty (w.compile_errors h name))) [
        | inl e ↦ inl (rw e refl, (e, tt))
        | inr e ↦ inr (rw e refl)
      ]

  run_statements-Ends :
      (stmts : List (Kind × Text)) (made : List Text) (h : History)
      → Ends (λ m g. Ran stmts made h m g) h (run_statements w stmts made h)
  unfolding run_statements
  run_statements-Ends [] made h = inl (made, h, refl, all_ran, unchanged)
  run_statements-Ends ((kind, stmt) ∷ stmts) made h = elim (Bool-cases (w.accepts h stmt)) [
    | inr no_go ↦ failed _ (rw (no_go, run_statements) refl)
    | inl go ↦ elim (compiled-cases (created_object stmt) (executed stmt ∷ h) made) [
      | inr bad ↦ inr (
        exits_code 1,
        rolled_back ∷ (executed stmt ∷ h),
        rw (go, run_statements, bad) refl,
        unfold end_code in refl,
        and_rolled_back (and_executed unchanged),
      )
      | inl (good, clean) ↦
          rw (go, run_statements, good)
            (stopped_later (and_executed unchanged) (λ m k r. ran go clean r)
              (run_statements-Ends stmts (made ++ name_of (created_object stmt))
                (executed stmt ∷ h)))
    ]
  ]

  check_made-Ends :
      (made : List Text) (h : History)
      → Ends
          (λ u g. (g ≡ h) × All (λ n. is_empty (w.compile_errors g n) ≡ true) made)
          h
          (check_made w made h)
  unfolding check_made
  check_made-Ends [] h = inl (tt, h, refl, (refl, tt), unchanged)
  check_made-Ends (name ∷ names) h = elim (Bool-cases (is_empty (w.compile_errors h name))) [
    | inr bad ↦ failed _ (rw (bad, check_made) refl)
    | inl good ↦
        rw (good, check_made)
          (stopped_later unchanged (λ u g p. (p.0, (rw (sym p.0) at good, p.1)))
            (check_made-Ends names h))
  ]

  run_script-Ends :
      (stmts : List (Kind × Text)) (h : History)
      → Ends
          (λ u g.
            (made : List Text) × Ran stmts [] h made g
            × All (λ n. is_empty (w.compile_errors g n) ≡ true) made)
          h
          (run_script w stmts h)
  unfolding run_script
  run_script-Ends stmts h = elim (run_statements-Ends stmts [] h) [
    | inr (e, g, q, c, u) ↦ inr (e, g, rw (q, run_script) refl, c, u)
    | inl (made, g, q, r, u) ↦
        rw (q, run_script)
          (stopped_later u (λ t k p. (made, rw (sym p.0) at r, p.1)) (check_made-Ends made g))
  ]

  -- the contents of one file
  pub RawDone : Text → History → History → Type 0
  RawDone raw h g =
      (is_code raw ≡ true)
      × (has_table_ddl raw ≡ false)
      × (stmts : List (Kind × Text)) × (split_script raw ≡ inr stmts)
      × (made : List Text) × Ran stmts [] h made g
      × All (λ n. is_empty (w.compile_errors g n) ≡ true) made

  script-Ends :
      (raw : Text) (h : History)
      → is_code raw ≡ true
      → has_table_ddl raw ≡ false
      → Ends (λ u g. RawDone raw h g) h (deploy_raw w raw h)
  unfolding deploy_raw RawDone
  script-Ends raw h code ddl = elim (Sum-cases (split_script raw)) [
    | inl (e, q) ↦ refused _ raw (rw (code, deploy_raw, ddl, q) refl)
    | inr (stmts, q) ↦ equal_to (rw (code, deploy_raw, ddl, q) refl) (
        stopped_later unchanged (λ t g p. (code, ddl, stmts, q, p.0, p.1, p.2))
          (run_script-Ends stmts h))
  ]

  deploy_raw-Ends :
      (raw : Text) (h : History) → Ends (λ u g. RawDone raw h g) h (deploy_raw w raw h)
  deploy_raw-Ends raw h = elim (Bool-cases (is_code raw)) [
    | inr code ↦ refused _ raw (unfold deploy_raw in rw (code, deploy_raw) refl)
    | inl code ↦ elim (Bool-cases (has_table_ddl raw)) [
      | inl ddl ↦ refused _ raw (unfold deploy_raw in rw (code, deploy_raw, ddl) refl)
      | inr ddl ↦ script-Ends raw h code ddl
    ]
  ]

  pub deploy_file-Ends :
      (path : Text) (h : History)
      → Ends
          (λ u g. (raw : Text) × (w.source path ≡ contents raw) × RawDone raw h g)
          h
          (deploy_file w path h)
  unfolding deploy_file
  deploy_file-Ends path h = elim (Source-cases (w.source path)) [
    | inr (inl q) ↦ refused _ path (rw (q, deploy_file) refl)
    | inr (inr q) ↦ refused _ path (rw (q, deploy_file) refl)
    | inl (raw, q) ↦
        equal_to (rw (q, deploy_file) refl)
          (stopped_later unchanged (λ t g p. (raw, q, p)) (deploy_raw-Ends raw h))
  ]

  pub done_Deployed :
      (path : Text) (paths : List Text) (h g k : History) (raw : Text)
      → w.source path ≡ contents raw
      → RawDone raw h g
      → Deployed paths g k
      → Deployed (path ∷ paths) h k
  unfolding RawDone
  done_Deployed path paths h g k raw s d more =
      let (code, ddl, stmts, split, made, rn, clean) = d in
      deployed raw stmts made g s code ddl split rn clean more
