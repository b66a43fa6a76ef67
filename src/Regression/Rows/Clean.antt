-- ===== src/Regression/Rows/Clean.antt =====
-- When step 2 of `evaluate` finds nothing to report, against the pass criteria of the script's header.
use data_migration_tool.Prelude.{
  ℕ, ◌≡◌, refl, ◌↔◌, inl, inr, Bool, true, false, not, ◌&&◌, Option, none, some, List, [], ◌∷◌,
  arith, nat_beq, Bool-cases, Option-cases, is_empty, all, All,
}
use data_migration_tool.Prelude.Text.{Text}
use data_migration_tool.Regression.Rows.{
  Status, loaded, failed, Expect, expect_loaded, expect_failed, expect_doc, Record, Expected,
  lookup_expected, problem_of, is_bad, is_bad_row, is_expect_loaded,
}
use data_migration_tool.Regression.Rows.Counts.{has_id, row_problem, record_failures}
use data_migration_tool.Regression.Rows.Tallies.{
  row_ok, Status-cases, is_none, is_empty-record_failures,
}

-- the row is in Fusion under its own id
abbrev pub Landed : Record → Type 0
Landed r = (r.status ≡ loaded) × (has_id r.fusion_id ≡ true)

-- the row is rejected with an error to show
abbrev pub Rejected : Record → Type 0
Rejected r = (r.status ≡ failed) × (is_empty r.err_txt ≡ false)

-- what they ask of a row that is not listed, bad or good
abbrev pub MeetsMark : Bool → Record → Type 0
MeetsMark true r = Rejected r
MeetsMark false r = Landed r

-- what the criteria ask of a row, listed or not
abbrev pub MeetsAs : Option (Text × Expect) → Record → Type 0
MeetsAs none r = MeetsMark (is_bad_row r.key r.err_txt) r
MeetsAs (some (src, expect_loaded)) r = Landed r
MeetsAs (some (src, expect_failed)) r = Rejected r
MeetsAs (some (src, expect_doc)) r = Rejected r × (nat_beq r.doc_pos 0 ≡ false)

abbrev pub Meets : Expected → Record → Type 0
Meets exp r = MeetsAs (lookup_expected exp r.sub r.stg_seq) r

row_ok-Landed : (r : Record) → (row_ok false r ≡ true) ↔ Landed r
unfolding row_ok
row_ok-Landed r = elim (Status-cases r.status) [
  | inl e ↦ rw e ((λ h. (refl, h)), (λ h. h.1))
  | inr (inl e) ↦ rw e ((λ h. absurd (cc)), (λ h. absurd (cc h.0)))
  | inr (inr (t, e)) ↦ rw e ((λ h. absurd (cc)), (λ h. absurd (cc h.0)))
]

row_ok-Rejected : (r : Record) → (row_ok true r ≡ true) ↔ Rejected r
unfolding row_ok
row_ok-Rejected r = elim (Status-cases r.status) [
  | inl e ↦ rw e ((λ h. absurd (cc)), (λ h. absurd (cc h.0)))
  | inr (inl e) ↦ rw e ((λ h. (refl, ground arith)), (λ h. let k = h.1 in ground arith))
  | inr (inr (t, e)) ↦ rw e ((λ h. absurd (cc)), (λ h. absurd (cc h.0)))
]

row_ok-MeetsMark : (bad : Bool) (r : Record) → (row_ok bad r ≡ true) ↔ MeetsMark bad r
row_ok-MeetsMark true r = row_ok-Rejected r
row_ok-MeetsMark false r = row_ok-Landed r

no_problem : Expect → Status → ℕ → Bool
no_problem x s n = elim (problem_of x s n) [ none ↦ true | some p ↦ false ]

no_problem_loaded : (s : Status) (n : ℕ) → s ≡ loaded → no_problem expect_loaded s n ≡ true
unfolding no_problem problem_of
no_problem_loaded s n e = rw e refl

no_problem_failed : (s : Status) (n : ℕ) → s ≡ failed → no_problem expect_failed s n ≡ true
unfolding no_problem problem_of
no_problem_failed s n e = rw e refl

no_problem_doc : (s : Status) (n : ℕ) → s ≡ failed → no_problem expect_doc s n ≡ not (nat_beq n 0)
unfolding no_problem problem_of
no_problem_doc s n e = rw e (ground arith)

-- the tests on a row, by what is expected of it
tests_as : Option (Text × Expect) → Record → Bool
tests_as none r = row_ok (is_bad_row r.key r.err_txt) r
tests_as (some (src, x)) r = no_problem x r.status r.doc_pos && row_ok (not (is_expect_loaded x)) r

row_problem-none :
    (exp : Expected) (r : Record)
    → lookup_expected exp r.sub r.stg_seq ≡ none
    → is_none (row_problem exp r) ≡ true
unfolding row_problem is_none
row_problem-none exp r e = rw (e, row_problem, is_none) refl

row_problem-some :
    (exp : Expected) (r : Record) (src : Text) (x : Expect)
    → lookup_expected exp r.sub r.stg_seq ≡ some (src, x)
    → is_none (row_problem exp r) ≡ no_problem x r.status r.doc_pos
unfolding row_problem is_none no_problem
row_problem-some exp r src x e =
    rw (e, row_problem, is_none)
      (elim (Option-cases (problem_of x r.status r.doc_pos)) [
        | inl q ↦ rw (q, no_problem) refl
        | inr (p, q) ↦ rw (q, no_problem) refl
      ])

is_bad-none :
    (exp : Expected) (r : Record)
    → lookup_expected exp r.sub r.stg_seq ≡ none
    → is_bad exp r ≡ is_bad_row r.key r.err_txt
unfolding is_bad
is_bad-none exp r e = rw (e, is_bad) refl

is_bad-some :
    (exp : Expected) (r : Record) (src : Text) (x : Expect)
    → lookup_expected exp r.sub r.stg_seq ≡ some (src, x)
    → is_bad exp r ≡ not (is_expect_loaded x)
unfolding is_bad
is_bad-some exp r src x e = rw (e, is_bad) refl

tests_as_lem :
    (exp : Expected) (r : Record)
    → (is_none (row_problem exp r) && row_ok (is_bad exp r) r)
      ≡ tests_as (lookup_expected exp r.sub r.stg_seq) r
unfolding tests_as
tests_as_lem exp r = elim (Option-cases (lookup_expected exp r.sub r.stg_seq)) [
  | inl e ↦ rw (row_problem-none exp r e, is_bad-none exp r e, e) refl
  | inr ((src, x), e) ↦ rw (row_problem-some exp r src x e, is_bad-some exp r src x e, e) refl
]

tests_as-MeetsAs : (o : Option (Text × Expect)) (r : Record) → (tests_as o r ≡ true) ↔ MeetsAs o r
unfolding tests_as
tests_as-MeetsAs none r = row_ok-MeetsMark (is_bad_row r.key r.err_txt) r
tests_as-MeetsAs (some (src, expect_loaded)) r =
    let (to, from) = row_ok-Landed r in
    (
      (λ h. to (ground arith)),
      (λ m. ground (arith, from m, no_problem_loaded r.status r.doc_pos m.0)),
    )
tests_as-MeetsAs (some (src, expect_failed)) r =
    let (to, from) = row_ok-Rejected r in
    (
      (λ h. to (ground arith)),
      (λ m. ground (arith, from m, no_problem_failed r.status r.doc_pos m.0)),
    )
tests_as-MeetsAs (some (src, expect_doc)) r =
    let (to, from) = row_ok-Rejected r in
    (
      (λ h.
          let m = to (ground arith) in
          let d = no_problem_doc r.status r.doc_pos m.0 in
          (
            m,
            elim (Bool-cases (nat_beq r.doc_pos 0)) [
              | inl z ↦ absurd (ground (arith, z, d, h))
              | inr z ↦ z
            ],
          )),
      (λ m.
          let d = no_problem_doc r.status r.doc_pos m.0.0 in
          let z = m.1 in ground (arith, from m.0, d, z)),
    )

all-All :
    (exp : Expected) (rows : List Record)
    → (all (λ r. is_none (row_problem exp r)) rows ≡ true)
        × (all (λ r. row_ok (is_bad exp r) r) rows ≡ true)
      ↔ All (Meets exp) rows
all-All exp [] = ((λ h. tt), (λ h. (refl, refl)))
all-All exp (r ∷ rows) =
    let (to, from) = all-All exp rows in
    let (meet, test) = tests_as-MeetsAs (lookup_expected exp r.sub r.stg_seq) r in
    let e = tests_as_lem exp r in
    (
      (λ h. let h0 = h.0 in let h1 = h.1 in (meet (ground arith), to (ground arith, ground arith))),
      (λ m.
          let t = test m.0 in
          let u = (from m.1).0 in let v = (from m.1).1 in (ground arith, ground arith)),
    )

-- Step 2 reports no failure exactly when no listed row is missing and every record meets the criteria:
-- a good row is LOADED with its own Fusion id, a bad one FAILED with an error text, and one that fails
-- with its document shows the document's rejection.
pub record_failures-Meets :
    (exp : Expected) (missing : List Text) (rows : List Record)
    → (is_empty (record_failures exp missing rows) ≡ true)
      ↔ (is_empty missing ≡ true) × All (Meets exp) rows
record_failures-Meets exp missing rows =
    let e = is_empty-record_failures exp missing rows in
    let (to, from) = all-All exp rows in
    (
      (λ h. (ground arith, to (ground arith, ground arith))),
      (λ m. let a = m.0 in let u = (from m.1).0 in let v = (from m.1).1 in ground arith),
    )
