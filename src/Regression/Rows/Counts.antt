-- ===== src/Regression/Rows/Counts.antt =====
-- scripts/dmt_regression_run.py, step 2 of `evaluate`: the tallies per sub-object and the failures
-- that they make.
use data_migration_tool.Prelude.{
  ℕ, ◌+◌, Bool, true, false, not, Option, none, some, List, [], ◌∷◌, ◌++◌, map, ltb, nat_beq,
  if◌then◌else◌, take, is_empty,
}
use data_migration_tool.Prelude.Text.{Text, text_eq}
use data_migration_tool.Regression.Rows.{
  loaded, failed, other, Record, Expected, Problem, lookup_expected, problem_of, is_bad,
}

abbrev pub Key : Type 0
Key = Option Text

unfoldable pub same_key : Key → Key → Bool
same_key none none = true
same_key (some a) (some b) = text_eq a b
same_key _ _ = false

-- d[key] = f(d.get(key))
unfoldable pub update : {A : Type 0} → Key → (Option A → A) → List (Key × A) → List (Key × A)
update k f [] = (k, f none) ∷ []
update k f ((j, a) ∷ d) = if same_key j k then (j, f (some a)) ∷ d else (j, a) ∷ update k f d

-- d[key] = d.get(key, 0) + 1
unfoldable pub bump : Key → List (Key × ℕ) → List (Key × ℕ)
unfolding update
bump k = update k (λ o. elim o [ none ↦ 1 | some n ↦ n + 1 ])

-- the counter of good rows that failed, which keeps the first error text
unfoldable pub bump_with : Key → Text → List (Key × (ℕ × Text)) → List (Key × (ℕ × Text))
unfolding update
bump_with k err = update k (λ o. elim o [ none ↦ (1, err) | some n ↦ (n.0 + 1, n.1) ])

pub record Stats : Type 0 where
  pub cemli : Text
  pub n_loaded : ℕ
  pub n_failed : ℕ
  pub n_other : ℕ
  pub good_loaded : ℕ
  pub good_failed : ℕ
  pub bad_loaded : ℕ
  pub bad_failed : ℕ
  pub bad_loaded_keys : List (Key × ℕ)
  pub good_failed_keys : List (Key × (ℕ × Text))
  pub no_error_keys : List (Key × ℕ)
  pub other_keys : List (Key × Text)
  pub no_id_keys : List (Key × ℕ)

abbrev pub no_rows : Text → Stats
no_rows cemli = record {
  cemli = cemli;
  n_loaded = 0;
  n_failed = 0;
  n_other = 0;
  good_loaded = 0;
  good_failed = 0;
  bad_loaded = 0;
  bad_failed = 0;
  bad_loaded_keys = [];
  good_failed_keys = [];
  no_error_keys = [];
  other_keys = [];
  no_id_keys = [];
}

-- bool(fusion_id)
unfoldable pub has_id : Option Text → Bool
has_id none = false
has_id (some t) = not (is_empty t)

unfoldable pub count_loaded : Bool → Record → Stats → Stats
unfolding bump has_id
count_loaded bad r s =
    if bad
    then record s {
      n_loaded = s.n_loaded + 1;
      bad_loaded = s.bad_loaded + 1;
      bad_loaded_keys = bump r.key s.bad_loaded_keys;
    }
    else record s {
      n_loaded = s.n_loaded + 1;
      good_loaded = s.good_loaded + 1;
      no_id_keys = if has_id r.fusion_id then s.no_id_keys else bump r.key s.no_id_keys;
    }

unfoldable pub count_failed : Bool → Record → Stats → Stats
unfolding bump bump_with
count_failed bad r s =
    let no_error = if is_empty r.err_txt then bump r.key s.no_error_keys else s.no_error_keys in
    if bad
    then record s {
      n_failed = s.n_failed + 1;
      bad_failed = s.bad_failed + 1;
      no_error_keys = no_error;
    }
    else record s {
      n_failed = s.n_failed + 1;
      good_failed = s.good_failed + 1;
      no_error_keys = no_error;
      good_failed_keys = bump_with r.key (take 160 r.err_txt) s.good_failed_keys;
    }

unfoldable pub count_row : Bool → Record → Stats → Stats
unfolding count_loaded count_failed update
count_row bad r s = elim r.status [
  | loaded ↦ count_loaded bad r s
  | failed ↦ count_failed bad r s
  | other status ↦ record s {
    n_other = s.n_other + 1;
    other_keys = update r.key (λ o. status) s.other_keys;
  }
]

abbrev pub PerObj : Type 0
PerObj = List (Text × Stats)

-- per_obj.setdefault(sub, ...), and the row counted there
unfoldable pub tally : Bool → Record → PerObj → PerObj
tally bad r [] = (r.sub, count_row bad r (no_rows r.cemli)) ∷ []
tally bad r ((sub, s) ∷ d) =
    if text_eq sub r.sub then (sub, count_row bad r s) ∷ d else (sub, s) ∷ tally bad r d

unfoldable pub tally_all : Expected → List Record → PerObj → PerObj
tally_all exp [] d = d
tally_all exp (r ∷ rs) d = tally_all exp rs (tally (is_bad exp r) r d)

-- sub-object -> the problems of its listed rows
abbrev pub ExpectFail : Type 0
ExpectFail = List (Text × List (Text × Problem))

-- expect_fail.setdefault(sub, []).append(...)
unfoldable pub add_problem : Text → Text × Problem → ExpectFail → ExpectFail
add_problem sub p [] = (sub, p ∷ []) ∷ []
add_problem sub p ((j, ps) ∷ d) =
    if text_eq j sub then (j, ps ++ p ∷ []) ∷ d else (j, ps) ∷ add_problem sub p d

-- the problem of a row, if it is listed and not as expected
unfoldable pub row_problem : Expected → Record → Option (Text × Problem)
row_problem exp r = elim (lookup_expected exp r.sub r.stg_seq) [
  | none ↦ none
  | some e ↦ elim (problem_of e.1 r.status r.doc_pos) [ none ↦ none | some p ↦ some (e.0, p) ]
]

unfoldable pub problems : Expected → List Record → ExpectFail → ExpectFail
problems exp [] d = d
problems exp (r ∷ rs) d = elim (row_problem exp r) [
  | none ↦ problems exp rs d
  | some p ↦ problems exp rs (add_problem r.sub p d)
]

-- str <= str
unfoldable pub text_le : Text → Text → Bool
text_le [] t = true
text_le (x ∷ s) [] = false
text_le (x ∷ s) (y ∷ t) = if nat_beq x y then text_le s t else ltb x y

unfoldable pub insert_named : {A : Type 0} → Text × A → List (Text × A) → List (Text × A)
insert_named a [] = a ∷ []
insert_named a (b ∷ l) = if text_le a.0 b.0 then a ∷ b ∷ l else b ∷ insert_named a l

-- for sub in sorted(d): d[sub]
unfoldable pub sorted_items : {A : Type 0} → List (Text × A) → List (Text × A)
sorted_items [] = []
sorted_items (a ∷ l) = insert_named a (sorted_items l)

pub data Failure : Type 0 where
  not_in_run : Text → Failure
  outcome_not_met : Text → List (Text × Problem) → Failure
  good_rows_failed : Text → ℕ → List (Key × (ℕ × Text)) → Failure
  bad_rows_loaded : Text → List (Key × ℕ) → Failure
  empty_error_text : Text → List (Key × ℕ) → Failure
  no_fusion_id : Text → List (Key × ℕ) → Failure
  not_terminal : Text → Key → Text → Failure

unfoldable pub if_any : {A : Type 0} → List A → Failure → List Failure
if_any [] f = []
if_any (a ∷ l) f = f ∷ []

unfoldable pub stats_failures : Text × Stats → List Failure
unfolding if_any
stats_failures (sub, s) =
    if_any s.good_failed_keys (good_rows_failed sub s.good_failed s.good_failed_keys)
    ++ if_any s.bad_loaded_keys (bad_rows_loaded sub s.bad_loaded_keys)
    ++ if_any s.no_error_keys (empty_error_text sub s.no_error_keys)
    ++ if_any s.no_id_keys (no_fusion_id sub s.no_id_keys)
    ++ map (λ k. not_terminal sub k.0 k.1) s.other_keys

unfoldable pub all_stats_failures : PerObj → List Failure
all_stats_failures [] = []
all_stats_failures (e ∷ d) = stats_failures e ++ all_stats_failures d

-- the failures of step 2, in the order in which `evaluate` appends them
unfoldable pub record_failures : Expected → List Text → List Record → List Failure
record_failures exp missing rows =
    map not_in_run missing
    ++ map (λ e. outcome_not_met e.0 e.1) (sorted_items (problems exp rows []))
    ++ all_stats_failures (sorted_items (tally_all exp rows []))
