-- ===== src/Golden/Diff/Equal.antt =====
-- When `diff_records` of test/golden/compare_fbdi.py reports nothing.
use data_migration_tool.Prelude.{
  ℕ, ◌+◌, ◌≡◌, refl, ◌∙◌, ◌↔◌, inl, inr, true, false, List, [], ◌∷◌, ◌++◌, arith, leb, nat_beq,
  if◌then◌else◌, Bool-cases, length, is_empty,
}
use data_migration_tool.Prelude.Text.{Text, text_eq, text_eq_sound, text_eq_refl}
use data_migration_tool.Golden.Csv.{Records}
use data_migration_tool.Golden.Diff.{
  Diff, row_count, field_count, field, suppressed, diff_fields, count_fields, diff_rows,
  diff_records,
}

not_nil : {A : Type 0} (xs : List A) (x : A) → is_empty (xs ++ x ∷ []) ≡ false
not_nil [] x = refl
not_nil (y ∷ xs) x = refl

-- a pair of fields that differ
diff_fields_differ :
    (m row c : ℕ) (g l : Text) (gs ls : List Text) (ds : List Diff)
    → text_eq g l ≡ false
    → diff_fields m row c (g ∷ gs) (l ∷ ls) ds ≡ (
        if leb m (length (ds ++ field row c g l ∷ []))
        then ((ds ++ field row c g l ∷ []) ++ suppressed ∷ [], true)
        else diff_fields m row (c + 1) gs ls (ds ++ field row c g l ∷ []))
unfolding diff_fields
diff_fields_differ m row c g l gs ls ds h = rw (h, diff_fields) refl

diff_fields_same :
    (m row c : ℕ) (g l : Text) (gs ls : List Text) (ds : List Diff)
    → text_eq g l ≡ true
    → diff_fields m row c (g ∷ gs) (l ∷ ls) ds ≡ diff_fields m row (c + 1) gs ls ds
unfolding diff_fields
diff_fields_same m row c g l gs ls ds h = rw (h, diff_fields) refl

-- what a differing pair leads to, whatever the rest adds
reported :
    (m row c : ℕ) (g l : Text) (gs ls : List Text) (ds : List Diff)
    → text_eq g l ≡ false
    → is_empty (diff_fields m row (c + 1) gs ls (ds ++ field row c g l ∷ [])).0 ≡ false
    → is_empty (diff_fields m row c (g ∷ gs) (l ∷ ls) ds).0 ≡ false
reported m row c g l gs ls ds h more =
    let ds' = ds ++ field row c g l ∷ [] in
    rw (diff_fields_differ m row c g l gs ls ds h)
      (elim (Bool-cases (leb m (length ds'))) [ inl k ↦ rw k (not_nil ds' _) | inr k ↦ rw k more ])

-- no report is taken back
diff_fields-kept :
    (m row c : ℕ) (gs ls : List Text) (ds : List Diff)
    → is_empty ds ≡ false
    → is_empty (diff_fields m row c gs ls ds).0 ≡ false
diff_fields-kept m row c [] ls ds e = unfold diff_fields in e
diff_fields-kept m row c (g ∷ gs) [] ds e = unfold diff_fields in e
diff_fields-kept m row c (g ∷ gs) (l ∷ ls) ds e = elim (Bool-cases (text_eq g l)) [
  | inl h ↦ rw (diff_fields_same m row c g l gs ls ds h) (diff_fields-kept m row (c + 1) gs ls ds e)
  | inr h ↦ reported m row c g l gs ls ds h (diff_fields-kept m row (c + 1) gs ls _ (not_nil ds _))
]

differ-reported :
    (m row c : ℕ) (g l : Text) (gs ls : List Text) (ds : List Diff)
    → text_eq g l ≡ false
    → is_empty (diff_fields m row c (g ∷ gs) (l ∷ ls) ds).0 ≡ false
differ-reported m row c g l gs ls ds h =
    reported m row c g l gs ls ds h (diff_fields-kept m row (c + 1) gs ls _ (not_nil ds _))

diff_fields-full :
    (m row c : ℕ) (gs ls : List Text) (ds : List Diff)
    → (diff_fields m row c gs ls ds).1 ≡ true
    → is_empty (diff_fields m row c gs ls ds).0 ≡ false
diff_fields-full m row c [] ls ds e = absurd (unfold diff_fields in cc)
diff_fields-full m row c (g ∷ gs) [] ds e = absurd (unfold diff_fields in cc)
diff_fields-full m row c (g ∷ gs) (l ∷ ls) ds e = elim (Bool-cases (text_eq g l)) [
  | inl h ↦
      let q = diff_fields_same m row c g l gs ls ds h in
      rw q (diff_fields-full m row (c + 1) gs ls ds (rw q at e))
  | inr h ↦ differ-reported m row c g l gs ls ds h
]

diff_fields-equal :
    (m row c : ℕ) (gs ls : List Text)
    → is_empty (diff_fields m row c gs ls []).0 ≡ true
    → length gs ≡ length ls
    → gs ≡ ls
diff_fields-equal m row c [] [] e n = refl
diff_fields-equal m row c [] (l ∷ ls) e n = absurd (omega (arith, n))
diff_fields-equal m row c (g ∷ gs) [] e n = absurd (omega (arith, n))
diff_fields-equal m row c (g ∷ gs) (l ∷ ls) e n = elim (Bool-cases (text_eq g l)) [
  | inl h ↦
      let same = text_eq_sound g l h in
      let rest =
        diff_fields-equal m row (c + 1) gs ls (rw (diff_fields_same m row c g l gs ls [] h) at e)
          (omega arith) in
      cc
  | inr h ↦ absurd (cc (differ-reported m row c g l gs ls [] h))
]

diff_fields_refl :
    (m row c : ℕ) (gs : List Text) (ds : List Diff) → diff_fields m row c gs gs ds ≡ (ds, false)
diff_fields_refl m row c [] ds = unfold diff_fields in refl
diff_fields_refl m row c (g ∷ gs) ds =
    diff_fields_same m row c g g gs gs ds (text_eq_refl g) ∙ diff_fields_refl m row (c + 1) gs ds

diff_rows_cons :
    (m row : ℕ) (g l : List Text) (gs ls : Records) (ds : List Diff)
    → diff_rows m row (g ∷ gs) (l ∷ ls) ds ≡ (
        let (ds', full) = diff_fields m row 0 g l (count_fields row g l ds) in
        if full then ds' else diff_rows m (row + 1) gs ls ds')
unfolding diff_rows
diff_rows_cons m row g l gs ls ds = refl

count_fields-kept :
    (row : ℕ) (g l : List Text) (ds : List Diff)
    → is_empty ds ≡ false
    → is_empty (count_fields row g l ds) ≡ false
count_fields-kept row g l ds e = elim (Bool-cases (nat_beq (length g) (length l))) [
  | inl h ↦ rw h e
  | inr h ↦ rw h (not_nil ds _)
]

row_reported :
    (m row : ℕ) (g l : List Text) (gs ls : Records) (ds : List Diff)
    → let r = diff_fields m row 0 g l (count_fields row g l ds) in
      is_empty r.0 ≡ false
      → is_empty (diff_rows m (row + 1) gs ls r.0) ≡ false
      → is_empty (diff_rows m row (g ∷ gs) (l ∷ ls) ds) ≡ false
row_reported m row g l gs ls ds e more =
    rw (diff_rows_cons m row g l gs ls ds)
      (elim (Bool-cases (diff_fields m row 0 g l (count_fields row g l ds)).1) [
        | inl h ↦ rw h e
        | inr h ↦ rw h more
      ])

diff_rows-kept :
    (m row : ℕ) (gs ls : Records) (ds : List Diff)
    → is_empty ds ≡ false
    → is_empty (diff_rows m row gs ls ds) ≡ false
diff_rows-kept m row [] ls ds e = unfold diff_rows in e
diff_rows-kept m row (g ∷ gs) [] ds e = unfold diff_rows in e
diff_rows-kept m row (g ∷ gs) (l ∷ ls) ds e =
    let kept =
      diff_fields-kept m row 0 g l (count_fields row g l ds) (count_fields-kept row g l ds e) in
    row_reported m row g l gs ls ds kept (diff_rows-kept m (row + 1) gs ls _ kept)

-- a row about which nothing is reported
row_equal :
    (m row : ℕ) (g l : List Text)
    → is_empty (diff_fields m row 0 g l (count_fields row g l [])).0 ≡ true
    → g ≡ l
row_equal m row g l e = elim (Bool-cases (nat_beq (length g) (length l))) [
  | inl h ↦ diff_fields-equal m row 0 g l (rw h at e) (ground arith)
  | inr h ↦
      absurd (cc (diff_fields-kept m row 0 g l (field_count row (length g) (length l) ∷ []) refl))
]

empty_nil : {A : Type 0} (xs : List A) → is_empty xs ≡ true → xs ≡ []
empty_nil [] e = refl
empty_nil (x ∷ xs) e = absurd (cc)

-- a row about which nothing is reported, and the rows behind it
rows_behind :
    (m row : ℕ) (g l : List Text) (gs ls : Records)
    → is_empty (diff_rows m row (g ∷ gs) (l ∷ ls) []) ≡ true
    → (g ≡ l) × (is_empty (diff_rows m (row + 1) gs ls []) ≡ true)
rows_behind m row g l gs ls e =
    let r = diff_fields m row 0 g l (count_fields row g l []) in
    elim (Bool-cases (is_empty r.0)) [
      | inr h ↦
          absurd (cc (row_reported m row g l gs ls [] h (diff_rows-kept m (row + 1) gs ls r.0 h)))
      | inl h ↦ elim (Bool-cases r.1) [
        | inl k ↦ absurd (cc (diff_fields-full m row 0 g l (count_fields row g l []) k))
        | inr k ↦
            let q = rw (diff_rows_cons m row g l gs ls [], k, empty_nil r.0 h) at e in
            (row_equal m row g l h, q)
      ]
    ]

diff_rows-equal :
    (m row : ℕ) (gs ls : Records)
    → is_empty (diff_rows m row gs ls []) ≡ true
    → length gs ≡ length ls
    → gs ≡ ls
diff_rows-equal m row [] [] e n = refl
diff_rows-equal m row [] (l ∷ ls) e n = absurd (omega (arith, n))
diff_rows-equal m row (g ∷ gs) [] e n = absurd (omega (arith, n))
diff_rows-equal m row (g ∷ gs) (l ∷ ls) e n =
    let (same, rest) = rows_behind m row g l gs ls e in
    let more = diff_rows-equal m (row + 1) gs ls rest (omega (arith, n)) in cc

diff_rows_refl : (m row : ℕ) (gs : Records) (ds : List Diff) → diff_rows m row gs gs ds ≡ ds
diff_rows_refl m row [] ds = unfold diff_rows in refl
diff_rows_refl m row (g ∷ gs) ds =
    let even : count_fields row g g ds ≡ ds = ground arith in
    rw (diff_rows_cons m row g g gs gs ds, even, diff_fields_refl m row 0 g ds)
      (diff_rows_refl m (row + 1) gs ds)

diff_records-equal : (m : ℕ) (gs ls : Records) → is_empty (diff_records m gs ls) ≡ true → gs ≡ ls
unfolding diff_records
diff_records-equal m gs ls e = elim (Bool-cases (nat_beq (length gs) (length ls))) [
  | inl h ↦ diff_rows-equal m 1 gs ls (rw (h, diff_records) at e) (ground arith)
  | inr h ↦ absurd (
      cc (
        rw (h, diff_records) at e,
        diff_rows-kept m 1 gs ls (row_count (length gs) (length ls) ∷ []) refl,
      ))
]

diff_records_refl : (m : ℕ) (gs : Records) → is_empty (diff_records m gs gs) ≡ true
unfolding diff_records
diff_records_refl m gs = rw (diff_rows_refl m 1 gs) (ground arith)

-- Whatever the length of the report, it is empty exactly when the two lists of records are the same.
pub diff_records_iff :
    (m : ℕ) (gs ls : Records) → (is_empty (diff_records m gs ls) ≡ true) ↔ (gs ≡ ls)
diff_records_iff m gs ls = (diff_records-equal m gs ls, λ e. rw e (diff_records_refl m ls))
