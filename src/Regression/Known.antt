-- ===== src/Regression/Known.antt =====
-- scripts/dmt_regression_run.py: `issue_key`, the known issues and the verdict of `main`. The regular
-- expressions are matched by hand, in the order of their list; `.` is any character but a newline.
pub mod Accepted
pub mod Verdict
mod Tests
use data_migration_tool.Prelude.{
  ℕ, ◌+◌, Bool, true, false, not, ◌&&◌, ◌||◌, Option, none, some, List, [], ◌∷◌, ◌++◌, map, nat_beq,
  if◌then◌else◌, length, is_empty, any,
}
use data_migration_tool.Prelude.Text.{Text, codes, text_eq, has_prefix}
use data_migration_tool.Gate.Evidence.{decimal}
use data_migration_tool.Regression.Issue.{IssueKey, issue_key}

-- FAIL or REVIEW
pub data Kind : Type 0 where
  fail review : Kind

abbrev pub kind_text : Kind → Text
kind_text fail = codes "FAIL"
kind_text review = codes "REVIEW"

-- an entry of known_issues; none is a missing field
pub record Entry : Type 0 where
  pub kind : Option Text
  pub category : Option Text
  pub object : Option Text
  pub sub : Option Text
  pub key : Option Text

abbrev pub or_else : Option Text → Text → Text
or_else none d = d
or_else (some t) d = t

-- bool(text)
abbrev pub given : Option Text → Bool
given none = false
given (some t) = not (is_empty t)

unfoldable pub is_same : Option Text → Text → Bool
is_same none t = false
is_same (some u) t = text_eq u t

-- e.get(f) is None or e.get(f) == k[f]
unfoldable pub agrees : Option Text → Option Text → Bool
agrees none k = true
agrees (some t) k = is_same k t

unfoldable pub entry_matches : Kind → IssueKey → Entry → Bool
unfolding agrees is_same
entry_matches kind k e =
    text_eq (or_else e.kind (codes "REVIEW")) (kind_text kind)
    && (is_same e.category k.category
        && ((given e.object || given e.sub)
            && (agrees e.object k.object && (agrees e.sub k.sub && agrees e.key k.key))))

-- k['sub'] and k['sub'] in regressed_subs
unfoldable pub is_regressed : List Text → IssueKey → Bool
is_regressed subs k = elim k.sub [
  | none ↦ false
  | some s ↦ not (is_empty s) && any (λ r. text_eq r s) subs
]

-- the indexes of the entries that match
unfoldable pub matches_from : ℕ → Kind → IssueKey → List Entry → List ℕ
matches_from i kind k [] = []
matches_from i kind k (e ∷ es) =
    let rest = matches_from (i + 1) kind k es in if entry_matches kind k e then i ∷ rest else rest

unfoldable pub item_matches : Kind → Option Text → List Text → List Entry → Text → List ℕ
item_matches kind prefix subs entries item = elim (issue_key item prefix) [
  | none ↦ []
  | some k ↦ if is_regressed subs k then [] else matches_from 0 kind k entries
]

pub record Classified : Type 0 where
  pub known : List Text
  pub new : List Text
  pub hit : List ℕ

unfoldable pub classify_issues :
    Kind → Option Text → List Text → List Entry → List Text → Classified
classify_issues kind prefix subs entries [] = record { known = []; new = []; hit = [] }
classify_issues kind prefix subs entries (it ∷ items) =
    let rest = classify_issues kind prefix subs entries items in
    let idx = item_matches kind prefix subs entries it in
    if is_empty idx
    then record rest { new = it ∷ rest.new }
    else record { known = it ∷ rest.known; new = rest.new; hit = idx ++ rest.hit }

-- r.split(': ', 1)[0]
unfoldable pub before_colon : Text → Text
before_colon [] = []
before_colon (c ∷ s) =
    let rest = before_colon s in if has_prefix (codes ": ") (c ∷ s) then [] else c ∷ rest

-- what `evaluate` reports, as far as `main` reads it
pub record Result : Type 0 where
  pub failures : List Text
  pub review : List Text
  pub prefix : Option Text
  pub baseline_regressions : List Text
  pub objects : List Text
  pub record_subs : List Text

unfoldable pub known_issue_in_run : Entry → List Text → List Text → Bool
unfolding is_same
known_issue_in_run e objects subs =
    if given e.object
    then any (λ o. is_same e.object o) objects
    else given e.sub && any (λ s. is_same e.sub s) subs

unfoldable pub cleared_from : ℕ → List Entry → List ℕ → Result → List Entry
cleared_from i [] hit r = []
cleared_from i (e ∷ es) hit r =
    let rest = cleared_from (i + 1) es hit r in
    if not (any (λ j. nat_beq j i) hit) && known_issue_in_run e r.objects r.record_subs
    then e ∷ rest
    else rest

unfoldable pub cleared_known_issues : List Entry → List ℕ → Result → List Entry
cleared_known_issues entries hit r = cleared_from 0 entries hit r

pub record Conclusion : Type 0 where
  pub verdict : Text
  pub exit_code : ℕ
  pub known_failures : List Text
  pub new_failures : List Text
  pub known_review : List Text
  pub new_review : List Text
  pub cleared : List Entry

unfoldable pub verdict_of : ℕ → ℕ → Bool → Bool → ℕ → Text
verdict_of n_fail n_rev no_new_fail no_new_rev n_known =
    if nat_beq n_fail 0 && nat_beq n_rev 0
    then codes "PASS"
    else if no_new_fail && no_new_rev
    then codes "PASS (no new failures; " ++ (decimal n_known ++ codes " known)")
    else if not no_new_fail
    then codes "FAIL"
    else codes "PASS (with review items)"

unfoldable pub exit_code_of : Bool → Bool → ℕ
exit_code_of no_new_fail no_new_rev =
    if no_new_fail && no_new_rev then 0 else if not no_new_fail then 1 else 2

-- `main`, from the result of the evaluation on; an unreadable file of known issues is an empty list
unfoldable pub conclude : List Entry → Result → Conclusion
conclude entries r =
    let regressed = map before_colon r.baseline_regressions in
    let f = classify_issues fail r.prefix regressed entries r.failures in
    let v = classify_issues review r.prefix regressed entries r.review in
    record {
      verdict =
          verdict_of (length r.failures) (length r.review) (is_empty f.new) (is_empty v.new)
            (length f.known + length v.known);
      exit_code = exit_code_of (is_empty f.new) (is_empty v.new);
      known_failures = f.known;
      new_failures = f.new;
      known_review = v.known;
      new_review = v.new;
      cleared = cleared_known_issues entries (f.hit ++ v.hit) r;
    }
