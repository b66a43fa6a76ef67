-- ===== src/Regression/Rows/Tallies.antt =====
-- When the tallies of step 2 hold nothing to report, as a test on each record.
use data_migration_tool.Prelude.{
  is_empty-append, is_empty-map, ℕ, ◌+◌, ◌≡◌, refl, sym, ap, ◌∙◌, ◌⊎◌, inl, inr, Bool, true, false,
  not, ◌&&◌, Option, none, some, List, [], ◌∷◌, arith, Option-cases, take, is_empty, all,
}
use data_migration_tool.Prelude.Text.{Text}
use data_migration_tool.Regression.Rows.{
  Status, loaded, failed, other, Record, Expected, Problem, is_bad,
}
use data_migration_tool.Regression.Rows.Counts.{
  Key, update, bump, bump_with, Stats, no_rows, has_id, count_loaded, count_failed, count_row,
  PerObj, tally, tally_all, ExpectFail, add_problem, row_problem, problems, insert_named,
  sorted_items, Failure, if_any, stats_failures, all_stats_failures, record_failures,
}

clean : Stats → Bool
clean s =
    is_empty s.good_failed_keys
    && (is_empty s.bad_loaded_keys
        && (is_empty s.no_error_keys && (is_empty s.no_id_keys && is_empty s.other_keys)))

unfoldable pub row_ok : Bool → Record → Bool
row_ok bad r = elim r.status [
  | loaded ↦ not bad && has_id r.fusion_id
  | failed ↦ bad && not (is_empty r.err_txt)
  | other status ↦ false
]

is_empty-update :
    {A : Type 0} (k : Key) (f : Option A → A) (d : List (Key × A)) → is_empty (update k f d) ≡ false
unfolding update
is_empty-update k f [] = refl
is_empty-update k f (e ∷ d) = ground arith

is_empty-bump : (k : Key) (d : List (Key × ℕ)) → is_empty (bump k d) ≡ false
unfolding bump
is_empty-bump k d = is_empty-update k (λ o. elim o [ none ↦ 1 | some n ↦ n + 1 ]) d

is_empty-bump_with :
    (k : Key) (t : Text) (d : List (Key × (ℕ × Text))) → is_empty (bump_with k t d) ≡ false
unfolding bump_with
is_empty-bump_with k t d =
    is_empty-update k (λ o. elim o [ none ↦ (1, t) | some n ↦ (n.0 + 1, n.1) ]) d

clean-count_loaded :
    (bad : Bool) (r : Record) (s : Stats)
    → clean (count_loaded bad r s) ≡ (clean s && (not bad && has_id r.fusion_id))
unfolding count_loaded clean
clean-count_loaded bad r s =
    ground (arith, is_empty-bump r.key s.bad_loaded_keys, is_empty-bump r.key s.no_id_keys)

clean-count_failed :
    (bad : Bool) (r : Record) (s : Stats)
    → clean (count_failed bad r s) ≡ (clean s && (bad && not (is_empty r.err_txt)))
unfolding count_failed clean
clean-count_failed bad r s = ground (
  arith,
  is_empty-bump r.key s.no_error_keys,
  is_empty-bump_with r.key (take 160 r.err_txt) s.good_failed_keys,
)

clean-other :
    (k : Key) (status : Text) (s : Stats)
    → clean (record s { n_other = s.n_other + 1; other_keys = update k (λ o. status) s.other_keys })
      ≡ false
unfolding clean
clean-other k status s = ground (arith, is_empty-update k (λ o. status) s.other_keys)

pub Status-cases : (x : Status) → (x ≡ loaded) ⊎ ((x ≡ failed) ⊎ ((t : Text) × (x ≡ other t)))
Status-cases loaded = inl refl
Status-cases failed = inr (inl refl)
Status-cases (other t) = inr (inr (t, refl))

clean-count_row :
    (bad : Bool) (r : Record) (s : Stats) → clean (count_row bad r s) ≡ (clean s && row_ok bad r)
unfolding count_row row_ok
clean-count_row bad r s = elim (Status-cases r.status) [
  | inl e ↦ rw e (clean-count_loaded bad r s)
  | inr (inl e) ↦ rw e (clean-count_failed bad r s)
  | inr (inr (t, e)) ↦ rw e (clean-other r.key t s ∙ ground arith)
]

clean-no_rows : (c : Text) → clean (no_rows c) ≡ true
unfolding clean
clean-no_rows c = refl

clean-tally :
    (bad : Bool) (r : Record) (d : PerObj)
    → all (λ e. clean e.1) (tally bad r d) ≡ (all (λ e. clean e.1) d && row_ok bad r)
unfolding tally
clean-tally bad r [] =
    ground (arith, clean-count_row bad r (no_rows r.cemli), clean-no_rows r.cemli)
clean-tally bad r ((sub, s) ∷ d) = ground (arith, clean-count_row bad r s, clean-tally bad r d)

clean-tally_all :
    (exp : Expected) (rs : List Record) (d : PerObj)
    → all (λ e. clean e.1) (tally_all exp rs d)
      ≡ (all (λ e. clean e.1) d && all (λ r. row_ok (is_bad exp r) r) rs)
unfolding tally_all
clean-tally_all exp [] d = ground arith
clean-tally_all exp (r ∷ rs) d =
    ground
      (arith, clean-tally_all exp rs (tally (is_bad exp r) r d), clean-tally (is_bad exp r) r d)

unfoldable pub is_none : Option (Text × Problem) → Bool
is_none none = true
is_none (some p) = false

is_empty-add_problem :
    (sub : Text) (p : Text × Problem) (d : ExpectFail) → is_empty (add_problem sub p d) ≡ false
unfolding add_problem
is_empty-add_problem sub p [] = refl
is_empty-add_problem sub p (e ∷ d) = ground arith

problems_skip :
    (exp : Expected) (r : Record) (rs : List Record) (d : ExpectFail)
    → row_problem exp r ≡ none
    → problems exp (r ∷ rs) d ≡ problems exp rs d
unfolding problems
problems_skip exp r rs d e = rw (e, problems) refl

problems_hit :
    (exp : Expected) (r : Record) (rs : List Record) (d : ExpectFail) (p : Text × Problem)
    → row_problem exp r ≡ some p
    → problems exp (r ∷ rs) d ≡ problems exp rs (add_problem r.sub p d)
unfolding problems
problems_hit exp r rs d p e = rw (e, problems) refl

is_empty-problems :
    (exp : Expected) (rs : List Record) (d : ExpectFail)
    → is_empty (problems exp rs d) ≡ (is_empty d && all (λ r. is_none (row_problem exp r)) rs)
is_empty-problems exp [] d = unfold problems in ground arith
is_empty-problems exp (r ∷ rs) d = elim (Option-cases (row_problem exp r)) [
  | inl e ↦
      rw (problems_skip exp r rs d e) (is_empty-problems exp rs d ∙ rw e (unfold is_none in refl))
  | inr (p, e) ↦ rw (problems_hit exp r rs d p e) (
      is_empty-problems exp rs (add_problem r.sub p d)
      ∙ rw (is_empty-add_problem r.sub p d, e) (unfold is_none in ground arith))
]

all-insert_named :
    {A : Type 0} (q : Text × A → Bool) (a : Text × A) (l : List (Text × A))
    → all q (insert_named a l) ≡ (q a && all q l)
unfolding insert_named
all-insert_named q a [] = refl
all-insert_named q a (b ∷ l) = ground (arith, all-insert_named q a l)

all-sorted_items :
    {A : Type 0} (q : Text × A → Bool) (l : List (Text × A)) → all q (sorted_items l) ≡ all q l
unfolding sorted_items
all-sorted_items q [] = refl
all-sorted_items q (a ∷ l) =
    all-insert_named q a (sorted_items l) ∙ ap (λ b. q a && b) (all-sorted_items q l)

is_empty-all : {A : Type 0} (l : List A) → is_empty l ≡ all (λ x. false) l
is_empty-all [] = refl
is_empty-all (a ∷ l) = refl

is_empty-if_any : {A : Type 0} (l : List A) (f : Failure) → is_empty (if_any l f) ≡ is_empty l
unfolding if_any
is_empty-if_any [] f = refl
is_empty-if_any (a ∷ l) f = refl

is_empty-stats_failures : (e : Text × Stats) → is_empty (stats_failures e) ≡ clean e.1
unfolding stats_failures clean
is_empty-stats_failures (sub, s) =
    simp (is_empty-append, is_empty-if_any, is_empty-map) (ground arith)

is_empty-all_stats_failures :
    (d : PerObj) → is_empty (all_stats_failures d) ≡ all (λ e. clean e.1) d
unfolding all_stats_failures
is_empty-all_stats_failures [] = refl
is_empty-all_stats_failures (e ∷ d) =
    is_empty-append (stats_failures e) (all_stats_failures d)
    ∙ rw (is_empty-stats_failures e, is_empty-all_stats_failures d) refl

-- the failures are none exactly when these tests pass
pub is_empty-record_failures :
    (exp : Expected) (missing : List Text) (rows : List Record)
    → is_empty (record_failures exp missing rows) ≡ (
        is_empty missing
        && (all (λ r. is_none (row_problem exp r)) rows && all (λ r. row_ok (is_bad exp r) r) rows))
unfolding record_failures
is_empty-record_failures exp missing rows =
    let t : is_empty (all_stats_failures (sorted_items (tally_all exp rows [])))
        ≡ all (λ r. row_ok (is_bad exp r) r) rows =
      is_empty-all_stats_failures (sorted_items (tally_all exp rows []))
      ∙ all-sorted_items (λ e. clean e.1) (tally_all exp rows [])
      ∙ clean-tally_all exp rows [] in
    let p : is_empty (sorted_items (problems exp rows []))
        ≡ all (λ r. is_none (row_problem exp r)) rows =
      is_empty-all (sorted_items (problems exp rows []))
      ∙ all-sorted_items (λ e. false) (problems exp rows [])
      ∙ sym (is_empty-all (problems exp rows []))
      ∙ is_empty-problems exp rows [] in
    simp (is_empty-append, is_empty-map, t, p) (ground arith)
