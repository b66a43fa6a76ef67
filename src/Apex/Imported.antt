-- ===== src/Apex/Imported.antt =====
-- What the exit codes of `do_import` of scripts/apex_deploy.py say.
use data_migration_tool.Prelude.{
  ℕ, String, ◌≡◌, refl, ◌↔◌, inl, inr, Bool, true, false, Option, List, [], ◌∷◌, arith, Bool-cases,
  any, All,
}
use data_migration_tool.Prelude.Text.{codes}
use data_migration_tool.Regression.Rows.{contains}
use data_migration_tool.Guard.Waiting.{Decides, Sleeps, FirstIdle, wait-cases}
use data_migration_tool.Deploy.{Exit, code}
use data_migration_tool.Apex.{
  Answer, is_ok, World, import_ok, alias_ok, import_and_alias, check_after, do_import,
}
use data_migration_tool.Guard

-- SQLcl returned 0 and printed none of these marks
abbrev pub Went : List String → Answer → Type 0
Went marks a = (a.rc ≡ 0) × All (λ m. contains (codes m) a.out ≡ false) marks

abbrev pub import_marks : List String
import_marks = "ORA-" ∷ "APEXLANG-" ∷ []

abbrev pub alias_marks : List String
alias_marks = "ORA-" ∷ "PLS-" ∷ []

none_of :
    (marks : List String) (a : Answer)
    → (any (λ m. contains (codes m) a.out) marks ≡ false)
      ↔ All (λ m. contains (codes m) a.out ≡ false) marks
none_of [] a = ((λ h. tt), (λ x. refl))
none_of (m ∷ marks) a =
    let (to, from) = none_of marks a in
    (
      (λ h. (ground arith, to (ground arith))),
      (λ x. let y = from x.1 in let z = x.0 in ground (arith, y, z)),
    )

is_ok-Went : (marks : List String) (a : Answer) → (is_ok marks a ≡ true) ↔ Went marks a
unfolding is_ok
is_ok-Went marks a =
    let (to, from) = none_of marks a in
    (
      (λ h. (ground arith, to (ground arith))),
      (λ x. let y = from x.1 in let z = x.0 in ground (arith, y, z)),
    )

import_ok-Went : (a : Answer) → (import_ok a ≡ true) ↔ Went import_marks a
unfolding import_ok
import_ok-Went a = is_ok-Went import_marks a

alias_ok-Went : (a : Answer) → (alias_ok a ≡ true) ↔ Went alias_marks a
unfolding alias_ok
alias_ok-Went a = is_ok-Went alias_marks a

-- both calls of SQLcl went through
abbrev pub BothWent : World → Type 0
BothWent w = Went import_marks w.import_answer × Went alias_marks w.alias_answer

-- the importer ran: 0 is a clean import, 4 one that left invalid objects, 2 a failed one
pub data Ran (w : World) : ℕ → Type 0 where
  clean : BothWent w → Guard.assert_no_invalid w.after ≡ true → Ran w 0
  invalid : BothWent w → Guard.assert_no_invalid w.after ≡ false → Ran w 4
  broken : (BothWent w → ⊥) → Ran w 2

-- How an import ends: the exit code, and whether the importer was called.
pub data Import (w : World) (timeout_s : ℕ) : Exit × Bool → Type 0 where
  no_source : w.app_file ≡ false → Import w timeout_s (code 2, false)
  refused :
      w.app_file ≡ true
      → Decides w.guard_world timeout_s 0 false
      → Import w timeout_s (code 3, false)
  imported :
      {rc k : ℕ}
      → w.app_file ≡ true
      → FirstIdle w.guard_world timeout_s 0 k
      → Ran w rc
      → Import w timeout_s (code rc, true)

ran : (w : World) → Ran w (check_after w (import_and_alias w).0)
unfolding import_and_alias check_after
ran w =
    let (wi, bi) = import_ok-Went w.import_answer in
    let (wa, ba) = alias_ok-Went w.alias_answer in
    elim (Bool-cases (import_ok w.import_answer)) [
      | inr i ↦ rw i (broken (λ x. let y = bi x.0 in cc))
      | inl i ↦ elim (Bool-cases (alias_ok w.alias_answer)) [
        | inr a ↦ rw (i, a) (broken (λ x. let y = ba x.1 in cc))
        | inl a ↦ elim (Bool-cases (Guard.assert_no_invalid w.after)) [
          | inl v ↦ rw (i, a, v) (clean (wi i, wa a) v)
          | inr v ↦ rw (i, a, v) (invalid (wi i, wa a) v)
        ]
      ]
    ]

ends :
    {w : World} {timeout : ℕ} {r s : Exit × Bool} → r ≡ s → Import w timeout s → Import w timeout r
ends e x = rw e x

-- Where sleeping advances the clock, an import ends. Without the source, and where the guard's rule refuses,
-- nothing is imported. Otherwise the guard found the database idle at its last check, busy at all before,
-- and the exit code is 0 exactly for an import and an alias call that SQLcl ended with 0 and without an error
-- mark, and that left no invalid object; 4 is one that left some, 2 a call that failed.
pub do_import-Import :
    (w : World) (guard_timeout_s : Option ℕ)
    → Sleeps w.guard_world 20
    → Import w (Guard.or_default guard_timeout_s 2700) (do_import w guard_timeout_s)
unfolding do_import
do_import-Import w timeout s = elim (Bool-cases w.app_file) [
  | inr f ↦ ends (rw f refl) (no_source f)
  | inl f ↦
      let (o, e, c) = wait-cases w.guard_world timeout s in
      elim c [
        | inl (p, d) ↦ ends (rw (f, e, p) refl) (refused f d)
        | inr (p, k, i) ↦ ends (rw (f, e, p) refl) (imported f i (ran w))
      ]
]
