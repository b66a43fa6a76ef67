-- ===== src/Guard/Idle.antt =====
-- What the guard's checks find in a database: the blockers of a deploy and its invalid objects.
use data_migration_tool.Prelude.{
  ℕ, ◌<◌, String, ◌≡◌, refl, sym, ap, ◌∙◌, ◌≢◌, ◌↔◌, inl, inr, Bool, true, false, Option, none,
  some, List, [], ◌∷◌, ◌++◌, map, arith, eq_iff, Bool-cases, Option-cases, length, is_empty, keep,
  All,
}
use data_migration_tool.Guard.{
  rows, Result, ok, err, RunRow, ObjectRow, View, Blocker, job, run, is_dmt_job, is_active,
  status_text, blockers, invalid_objects, count_invalid, assert_no_invalid,
}

keep-nil {ℓ} :
    {A : Type ℓ} (p : A → Bool) (xs : List A) → keep p xs ≡ [] → All (λ x. p x ≡ false) xs
keep-nil p [] h = tt
keep-nil p (x ∷ xs) h = elim (Bool-cases (p x)) [
  | inl yes_x ↦ absurd (cc (rw yes_x at h))
  | inr no_x ↦ (no_x, keep-nil p xs (rw no_x at h))
]

keep-none {ℓ} :
    {A : Type ℓ} (p : A → Bool) (xs : List A) → All (λ x. p x ≡ false) xs → keep p xs ≡ []
keep-none p [] h = refl
keep-none p (x ∷ xs) h = rw (h.0, keep-none p xs h.1)

All-map {ℓ κ μ} :
    {A : Type ℓ} {P : A → Type κ} {Q : A → Type μ} (f : (x : A) → P x → Q x) (xs : List A)
    → All P xs
    → All Q xs
All-map f [] h = tt
All-map f (x ∷ xs) h = (f x h.0, All-map f xs h.1)

-- A run that a deploy would disturb, in the words of the rule.
pub record Active (r : RunRow) : Type 0 where
  pub status : String
  pub is_status : r.run_status ≡ some status
  pub recent : r.age_seconds < 86400
  pub not_completed : status ≢ "COMPLETED"
  pub not_completed_errors : status ≢ "COMPLETED_ERRORS"
  pub not_failed : status ≢ "FAILED"
  pub not_cancelled : status ≢ "CANCELLED"
  pub not_no_rows : status ≢ "NO_ROWS_PROCESSED"

status-Active : (r : RunRow) (s : String) → r.run_status ≡ some s → is_active r ≡ true → Active r
unfolding is_active
status-Active r s e h =
    let h' = rw e at h in
    record {
      status = s;
      is_status = e;
      recent = ground arith;
      not_completed = λ p. ground (arith, eq_iff s "COMPLETED");
      not_completed_errors = λ p. ground (arith, eq_iff s "COMPLETED_ERRORS");
      not_failed = λ p. ground (arith, eq_iff s "FAILED");
      not_cancelled = λ p. ground (arith, eq_iff s "CANCELLED");
      not_no_rows = λ p. ground (arith, eq_iff s "NO_ROWS_PROCESSED");
    }

is_active-Active : (r : RunRow) → is_active r ≡ true → Active r
unfolding is_active
is_active-Active r h = elim (Option-cases r.run_status) [
  | inl e ↦ absurd (ground arith)
  | inr (s, e) ↦ status-Active r s e h
]

Active-is_active : (r : RunRow) → Active r → is_active r ≡ true
unfolding is_active
Active-is_active r a = ground (
  arith,
  eq_iff a.status "COMPLETED",
  eq_iff a.status "COMPLETED_ERRORS",
  eq_iff a.status "FAILED",
  eq_iff a.status "CANCELLED",
  eq_iff a.status "NO_ROWS_PROCESSED",
)

not-Active : (r : RunRow) → is_active r ≡ false → ¬ Active r
not-Active r h a = cc (Active-is_active r a)

inactive : (r : RunRow) → ¬ Active r → is_active r ≡ false
inactive r h = elim (Bool-cases (is_active r)) [
  | inl e ↦ absurd (h (is_active-Active r e))
  | inr e ↦ e
]

maps-nil {ℓ κ μ} :
    {A : Type ℓ} {B : Type κ} {C : Type μ} (f : A → C) (g : B → C) (xs : List A) (ys : List B)
    → map f xs ++ map g ys ≡ []
    → (xs ≡ []) × (ys ≡ [])
maps-nil f g [] [] h = (refl, refl)
maps-nil f g [] (y ∷ ys) h = cc
maps-nil f g (x ∷ xs) ys h = cc

blockers_lem :
    (v : View) (js : List String) (rs : List RunRow)
    → v.connects ≡ true
    → v.jobs ≡ rows js
    → v.runs ≡ rows rs
    → blockers v
      ≡ ok (
          map job (keep is_dmt_job js)
          ++ map (λ r. run r.run_id (status_text r)) (keep is_active rs))
unfolding blockers
blockers_lem v js rs c j r = rw (c, j, r)

idle_parts :
    (js : List String) (rs : List RunRow)
    → ◌≡◌ {A = Result (List Blocker)}
        (ok (
          map job (keep is_dmt_job js)
          ++ map (λ r. run r.run_id (status_text r)) (keep is_active rs)))
        (ok [])
    → (keep is_dmt_job js ≡ []) × (keep is_active rs ≡ [])
idle_parts js rs h =
    maps-nil job (λ r. run r.run_id (status_text r)) (keep is_dmt_job js) (keep is_active rs) (cc h)

-- A reachable database blocks no deploy exactly when none of its running jobs is in the four
-- families and none of its runs is active: with a status, not terminal, and submitted within the
-- last day.
pub blockers-idle :
    (v : View) (js : List String) (rs : List RunRow)
    → v.connects ≡ true
    → v.jobs ≡ rows js
    → v.runs ≡ rows rs
    → (blockers v ≡ ok []) ↔ (All (λ j. is_dmt_job j ≡ false) js × All (λ r. ¬ Active r) rs)
blockers-idle v js rs c j r = (
  (λ h.
      let (none_j, none_r) = idle_parts js rs (sym (blockers_lem v js rs c j r) ∙ h) in
      (keep-nil is_dmt_job js none_j, All-map not-Active rs (keep-nil is_active rs none_r))),
  (λ h. rw (
    blockers_lem v js rs c j r,
    keep-none is_dmt_job js h.0,
    keep-none is_active rs (All-map inactive rs h.1),
  )),
)

is_empty-length {ℓ} : {A : Type ℓ} (xs : List A) → (is_empty xs ≡ true) ↔ (length xs ≡ 0)
is_empty-length [] = (λ h. refl, λ h. refl)
is_empty-length (x ∷ xs) = (λ h. cc, λ h. absurd (omega arith))

-- A deploy is verified exactly when the invalid objects can be counted and there are none.
pub assert_no_invalid-count : (v : View) → (assert_no_invalid v ≡ true) ↔ (count_invalid v ≡ some 0)
unfolding assert_no_invalid count_invalid
assert_no_invalid-count v = at (invalid_objects v)
  where
    at :
        (r : Result (List ObjectRow))
        → (elim r as (λ _. Bool) [ ok bad ↦ is_empty bad | err e ↦ false ] ≡ true)
          ↔ (elim r as (λ _. Option ℕ) [ ok bad ↦ some (length bad) | err e ↦ none ] ≡ some 0)
    at (ok bad) = (λ h. ap some ((is_empty-length bad).0 h), λ h. (is_empty-length bad).1 (cc h))
    at (err e) = (λ h. cc, λ h. cc)
