-- ===== src/Regression/Baseline.antt =====
-- scripts/dmt_regression_run.py, step 5 of `evaluate`: the counts of a run per sub-object against
-- those of an earlier run, and which run that is.
pub mod NotWorse
mod Tests
use data_migration_tool.Prelude.{
  ℕ, ◌+◌, max, Bool, not, ◌&&◌, Option, none, some, List, [], ◌∷◌, ◌++◌, map, ltb, nat_beq,
  if◌then◌else◌, is_empty, any, keep,
}
use data_migration_tool.Prelude.Text.{Text, text_eq}
use data_migration_tool.Regression.Rows.{
  Status, loaded, failed, other, Expected, lookup_expected, is_expect_loaded, is_bad_row,
  text_or_empty,
}
use data_migration_tool.Regression.Rows.Counts.{Stats, PerObj, sorted_items}

pub record BaseRow : Type 0 where
  pub sub : Text
  pub key : Option Text
  pub status : Status
  pub err : Option Text
  pub stg_seq : Option ℕ

pub record Base : Type 0 where
  pub good_loaded : ℕ
  pub good_failed : ℕ
  pub bad_loaded : ℕ
  pub bad_failed : ℕ
  pub total : ℕ

abbrev pub no_base : Base
no_base = record { good_loaded = 0; good_failed = 0; bad_loaded = 0; bad_failed = 0; total = 0 }

unfoldable pub is_bad_base : Expected → BaseRow → Bool
is_bad_base exp r = elim (lookup_expected exp r.sub r.stg_seq) [
  | some e ↦ not (is_expect_loaded e.1)
  | none ↦ is_bad_row r.key (text_or_empty r.err)
]

unfoldable pub count_base : Bool → Status → Base → Base
count_base bad loaded b =
    if bad
    then record b { total = b.total + 1; bad_loaded = b.bad_loaded + 1 }
    else record b { total = b.total + 1; good_loaded = b.good_loaded + 1 }
count_base bad failed b =
    if bad
    then record b { total = b.total + 1; bad_failed = b.bad_failed + 1 }
    else record b { total = b.total + 1; good_failed = b.good_failed + 1 }
count_base bad (other t) b = record b { total = b.total + 1 }

unfoldable pub tally_base : Bool → BaseRow → List (Text × Base) → List (Text × Base)
tally_base bad r [] = (r.sub, count_base bad r.status no_base) ∷ []
tally_base bad r ((sub, b) ∷ d) =
    if text_eq sub r.sub
    then (sub, count_base bad r.status b) ∷ d
    else (sub, b) ∷ tally_base bad r d

unfoldable pub tally_bases : Expected → List BaseRow → List (Text × Base) → List (Text × Base)
tally_bases exp [] d = d
tally_bases exp (r ∷ rs) d = tally_bases exp rs (tally_base (is_bad_base exp r) r d)

-- d.get(name)
unfoldable pub find : {A : Type 0} → Text → List (Text × A) → Option A
find n [] = none
find n ((m, a) ∷ d) = let rest = find n d in if text_eq m n then some a else rest

-- the three counts of the run that the comparison reads
pub record Now : Type 0 where
  pub good_loaded : ℕ
  pub good_failed : ℕ
  pub bad_loaded : ℕ

-- per_obj.get(sub, {...: 0})
unfoldable pub now_of : Text → PerObj → Now
now_of sub d = elim (find sub d) [
  | none ↦ record { good_loaded = 0; good_failed = 0; bad_loaded = 0 }
  | some s ↦ record {
    good_loaded = s.good_loaded;
    good_failed = s.good_failed;
    bad_loaded = s.bad_loaded;
  }
]

-- a count with what it was and what it is
pub data Delta : Type 0 where
  good_loaded_fell good_failed_rose bad_loaded_rose : ℕ → ℕ → Delta

unfoldable pub deltas : Base → Now → List Delta
deltas was now =
    (if ltb now.good_loaded was.good_loaded
      then good_loaded_fell was.good_loaded now.good_loaded ∷ []
      else [])
    ++ (if ltb was.good_failed now.good_failed
        then good_failed_rose was.good_failed now.good_failed ∷ []
        else [])
    ++ (if ltb was.bad_loaded now.bad_loaded
        then bad_loaded_rose was.bad_loaded now.bad_loaded ∷ []
        else [])

-- sorted(set(per_obj) | set(base))
unfoldable pub names : PerObj → List (Text × Base) → List Text
names per base =
    map (λ e. e.0)
      (sorted_items (
        map (λ e. (e.0, tt)) base
        ++ map (λ e. (e.0, tt)) (keep (λ e. not (any (λ b. text_eq b.0 e.0) base)) per)))

unfoldable pub regression_of : PerObj → List (Text × Base) → Text → List (Text × List Delta)
regression_of per base sub = elim (find sub base) [
  | none ↦ []
  | some was ↦
      if nat_beq was.total 0
      then []
      else if is_empty (deltas was (now_of sub per))
      then []
      else (sub, deltas was (now_of sub per)) ∷ []
]

unfoldable pub regressions_of : PerObj → List (Text × Base) → List Text → List (Text × List Delta)
regressions_of per base [] = []
regressions_of per base (sub ∷ subs) = regression_of per base sub ++ regressions_of per base subs

unfoldable pub regressions : PerObj → List (Text × Base) → List (Text × List Delta)
regressions per base = regressions_of per base (names per base)

-- --baseline: 'auto' or nothing, 'none', or a run id
pub data BaselineArg : Type 0 where
  auto no_baseline : BaselineArg
  run : ℕ → BaselineArg

-- a row of DMT_PIPELINE_RUN_TBL
pub record Run : Type 0 where
  pub run_id : ℕ
  pub scenario : Text
  pub pipeline_codes : Text
  pub completed : Bool

-- MAX(RUN_ID) of the completed earlier runs of the same scenario and pipelines
unfoldable pub latest_before : ℕ → Text → Text → List Run → Option ℕ
latest_before id scenario codes [] = none
latest_before id scenario codes (r ∷ rs) =
    let rest = latest_before id scenario codes rs in
    if ltb r.run_id id
      && (text_eq r.scenario scenario && (text_eq r.pipeline_codes codes && r.completed))
    then elim rest [ none ↦ some r.run_id | some m ↦ some (max r.run_id m) ]
    else rest

-- a run id of 0 reads as none
unfoldable pub resolve_baseline : ℕ → BaselineArg → Text → Text → List Run → Option ℕ
resolve_baseline id no_baseline scenario codes rs = none
resolve_baseline id (run n) scenario codes rs = some n
resolve_baseline id auto scenario codes rs = elim (latest_before id scenario codes rs) [
  | none ↦ none
  | some m ↦ if nat_beq m 0 then none else some m
]
