-- ===== src/Promote/State.antt =====
-- scripts/ci_promote.py: the acts of a promotion, the world that answers them, and stages.
use data_migration_tool.Prelude.{
  ℕ, String, ◌≡◌, refl, ◌⊎◌, inl, inr, Bool, false, Option, List, ◌∷◌, if◌then◌else◌,
}
use data_migration_tool.Prelude.Text.{Text}
use data_migration_tool.Gate.Evidence.{Value}
use data_migration_tool.Gate.Paths.{Identity}
use data_migration_tool.Gate.SameCode.{Revisions}
use data_migration_tool.Gate.Log.{Store}
use data_migration_tool.Gate.Override.{Terminal}
use data_migration_tool.Guard
use data_migration_tool.Prefix.Issued.{Target}

-- What the script did, with what it learned where a later act rests on that.
pub data Act : Type 0 where
  waited : Target → Bool → Act
  deployed_db : Target → Act
  deployed_apex : Target → Act
  configured : Target → Act
  synced_prefix : Target → Act
  ran_regression : Target → Act
  ran_clickthrough : Target → Value → Act
  updated_main : Act
  gate_checked : Bool → Act
  merged : ℕ → Act

-- latest first
abbrev pub History : Type 0
History = List Act

-- the JSON result of the console test: the verdict, and each step's ok and name
pub record ClickResult : Type 0 where
  pub rc : Value
  pub verdict : Value
  pub base_url : String
  pub steps : List (Bool × String)

-- the JSON summary of the harness, with how many items its lists hold
pub record Summary : Type 0 where
  pub rc : Value
  pub run_id : Value
  pub verdict : Value
  pub known_failures : ℕ
  pub new_failures : ℕ
  pub known_review : ℕ
  pub new_review : ℕ
  pub pipeline_codes : Value
  pub started_at : Value
  pub finished_at : Value

-- a pull request: MERGED, and the review's decision
pub data Decision : Type 0 where
  changes_requested approved undecided : Decision

pub Decision-cases : (d : Decision) → (d ≡ changes_requested) ⊎ ((d ≡ approved) ⊎ (d ≡ undecided))
Decision-cases changes_requested = inl refl
Decision-cases approved = inr (inl refl)
Decision-cases undecided = inr (inr refl)

pub record World : Type 0 where
  pub revs : Revisions
  pub show_path : Text → String
  pub identity : History → Identity
  pub now : History → ℕ
  pub stamp_now : History → Value
  pub terminal : Terminal
  pub who : String
  pub guard_world : Target → History → Guard.World
  pub view : Target → History → Guard.View
  pub apex_rc : Target → History → Value
  pub config_rc : Target → History → Value
  pub sync_exits : Target → History → Bool
  pub summary : Target → Option String → History → Summary
  pub known_issues_sha : History → Value
  pub run_prefix : Target → Value → History → Option String
  pub prefix_used_on : Target → String → History → List ℕ
  pub click : Target → Value → History → ClickResult
  pub pr_state : ℕ → ℕ → Bool × Decision
  pub merge_rc : ℕ → History → Value

pub record State : Type 0 where
  pub store : Store
  pub did : History

-- sys.exit, or a result
pub data Ran (A : Type 0) : Type 0 where
  exits : Ran A
  done : A → Ran A

abbrev pub Stage : Type 0 → Type 0
Stage A = State → Ran A × State

abbrev pub follow : {A B : Type 0} → Ran A → (A → Stage B) → Stage B
follow exits f s = (exits, s)
follow (done a) f s = f a s

infixl 10 ◌>>=◌ ◌>>◌
abbrev pub ◌>>=◌ : {A B : Type 0} → Stage A → (A → Stage B) → Stage B
◌>>=◌ m f s = follow (m s).0 f (m s).1

abbrev pub ◌>>◌ : {A B : Type 0} → Stage A → Stage B → Stage B
m >> k = m >>= λ _. k

abbrev pub pure : {A : Type 0} → A → Stage A
pure a s = (done a, s)

abbrev pub stop : {A : Type 0} → Stage A
stop s = (exits, s)

-- what the world answers now
abbrev pub ask : {A : Type 0} → (History → A) → Stage A
ask f s = (done (f s.did), s)

abbrev pub act : Act → Stage (Unit {0})
act a s = (done tt, record s { did = a ∷ s.did })

-- a and then b, as Python's `and`
abbrev pub both : Stage Bool → Stage Bool → Stage Bool
both m k = m >>= λ b. if b then k else pure false
