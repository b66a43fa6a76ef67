-- ===== src/Scenario/Verified.antt =====
-- What the checks of scripts/deploy_scenario.py against the database establish.
use data_migration_tool.Prelude.{
  ℕ, zero, suc, ◌≡◌, refl, sym, ◌∙◌, ◌↔◌, inl, inr, true, none, some, List, [], ◌∷◌, ◌++◌, arith,
  nat_beq, if◌then◌else◌, Bool-cases, Option-cases, All,
}
use data_migration_tool.Prelude.Text.{Text}
use data_migration_tool.Scenario.Mint.{
  History, World, checked, counts_in, stg_row_counts, table_duplicates, duplicates_in,
  verify_no_duplicates, same_id, look_up,
}

append_nil : (xs ys : List (Text × ℕ × ℕ)) → xs ++ ys ≡ [] → (xs ≡ []) × (ys ≡ [])
append_nil [] ys e = (refl, e)
append_nil (x ∷ xs) ys e = absurd (cc)

module _ (w : World) (h : History) (target : Text) (sid : ℕ) where
  -- the table has no rows of the scenario, or none of its groups has two rows
  pub data IsUnique : Text → Type 0 where
    vacant : {t : Text} → w.row_count h target t sid ≡ some 0 → IsUnique t
    distinct :
        {t : Text} (n : ℕ)
        → w.row_count h target t sid ≡ some (suc n)
        → w.duplicate_groups h target t sid ≡ some 0
        → IsUnique t

  -- one of the tables has rows of the scenario
  pub data SomeRows : List Text → Type 0 where
    rows_here :
        {t : Text} {ts : List Text} (n : ℕ)
        → w.row_count h target t sid ≡ some (suc n)
        → SomeRows (t ∷ ts)
    rows_later : {t : Text} {ts : List Text} → SomeRows ts → SomeRows (t ∷ ts)

  table_duplicates-IsUnique : (t : Text) → table_duplicates w h target sid t ≡ some [] → IsUnique t
  unfolding table_duplicates
  table_duplicates-IsUnique t e = elim (Option-cases (w.row_count h target t sid)) [
    | inl n ↦ absurd (ground arith)
    | inr (zero, n) ↦ vacant n
    | inr (suc n, k) ↦ distinct n k (ground arith)
  ]

  IsUnique-table_duplicates : (t : Text) → IsUnique t → table_duplicates w h target sid t ≡ some []
  unfolding table_duplicates
  IsUnique-table_duplicates t (vacant n) = rw (n, table_duplicates) refl
  IsUnique-table_duplicates t (distinct n k d) = rw (k, table_duplicates, d) (ground arith)

  duplicates_in-IsUnique :
      (ts : List Text) → duplicates_in w h target sid ts ≡ some [] → All IsUnique ts
  unfolding duplicates_in
  duplicates_in-IsUnique [] e = tt
  duplicates_in-IsUnique (t ∷ ts) e = elim (Option-cases (table_duplicates w h target sid t)) [
    | inl n ↦ absurd (ground arith)
    | inr (ps, p) ↦ elim (Option-cases (duplicates_in w h target sid ts)) [
      | inl n ↦ absurd (ground arith)
      | inr (rest, q) ↦
          let both : ps ++ rest ≡ [] = ground arith in
          let (a, b) = append_nil ps rest both in
          (table_duplicates-IsUnique t (cc), duplicates_in-IsUnique ts (cc))
    ]
  ]

  IsUnique-duplicates_in :
      (ts : List Text) → All IsUnique ts → duplicates_in w h target sid ts ≡ some []
  unfolding duplicates_in
  IsUnique-duplicates_in [] a = refl
  IsUnique-duplicates_in (t ∷ ts) a =
      rw (IsUnique-table_duplicates t a.0, IsUnique-duplicates_in ts a.1, duplicates_in) refl

  counts_in-SomeRows :
      (ts : List Text) (r : Text × ℕ) (rs : List (Text × ℕ))
      → counts_in w h target sid ts ≡ some (r ∷ rs)
      → SomeRows ts
  unfolding counts_in
  counts_in-SomeRows [] r rs e = absurd (cc)
  counts_in-SomeRows (t ∷ ts) r rs e = elim (Option-cases (w.row_count h target t sid)) [
    | inl n ↦ absurd (ground arith)
    | inr (suc n, k) ↦ rows_here n k
    | inr (zero, k) ↦ rows_later (counts_in-SomeRows ts r rs (ground arith))
  ]

  -- each table's rows can be counted
  abbrev pub Counted : List Text → Type 0
  Counted ts = All (λ t. (n : ℕ) × (w.row_count h target t sid ≡ some n)) ts

  counts_in-some :
      (ts : List Text)
      → Counted ts
      → (rs : List (Text × ℕ)) × (counts_in w h target sid ts ≡ some rs)
  unfolding counts_in
  counts_in-some [] a = ([], refl)
  counts_in-some (t ∷ ts) a =
      let (n, k) = a.0 in
      let (rs, q) = counts_in-some ts a.1 in
      (if nat_beq n 0 then rs else (t, n) ∷ rs, rw (k, q, counts_in) refl)

  counts_in_filled :
      (ts : List Text)
      → Counted ts
      → SomeRows ts
      → (r : Text × ℕ) × (rs : List (Text × ℕ)) × (counts_in w h target sid ts ≡ some (r ∷ rs))
  unfolding counts_in
  counts_in_filled [] a none_left = elim none_left [ ]
  counts_in_filled (t ∷ ts) a (rows_here n k) =
      let (rs, q) = counts_in-some ts a.1 in ((t, suc n), rs, ground arith)
  counts_in_filled (t ∷ ts) a (rows_later later) =
      let (n, k) = a.0 in
      let (r, rs, q) = counts_in_filled ts a.1 later in
      elim (Bool-cases (nat_beq n 0)) [
        | inl z ↦ (r, rs, ground arith)
        | inr z ↦ ((t, n), r ∷ rs, ground arith)
      ]

  counted_of_unique : (t : Text) → IsUnique t → (n : ℕ) × (w.row_count h target t sid ≡ some n)
  counted_of_unique t (vacant k) = (0, k)
  counted_of_unique t (distinct n k d) = (suc n, k)

  IsUnique-Counted : (ts : List Text) → All IsUnique ts → Counted ts
  IsUnique-Counted [] a = tt
  IsUnique-Counted (t ∷ ts) a = (counted_of_unique t a.0, IsUnique-Counted ts a.1)

  -- What the checks establish: the row has the registered id, there are rows of the scenario, and no
  -- table holds one of them twice.
  pub record Verified (name : Text) : Type 0 where
    pub reachable : w.connects h target ≡ true
    pub same_row : w.scenario_id h target name ≡ some (some sid)
    pub tables : List Text
    pub listed : w.stg_tables h target ≡ some tables
    pub not_empty : SomeRows tables
    pub unique : All IsUnique tables

  stg_row_counts-some :
      (ts : List Text)
      → w.stg_tables h target ≡ some ts
      → stg_row_counts w h target sid ≡ counts_in w h target sid ts
  unfolding stg_row_counts
  stg_row_counts-some ts e = rw (e, stg_row_counts) refl

  verify_no_duplicates-some :
      (ts : List Text)
      → w.stg_tables h target ≡ some ts
      → verify_no_duplicates w h target sid ≡ duplicates_in w h target sid ts
  unfolding verify_no_duplicates
  verify_no_duplicates-some ts e = rw (e, verify_no_duplicates) refl

  Verified-look_up : (name : Text) → Verified name → look_up w h target name sid ≡ checked []
  unfolding look_up same_id
  Verified-look_up name v =
      let (r, rs, q) = counts_in_filled v.tables (IsUnique-Counted v.tables v.unique) v.not_empty in
      let some_rows = stg_row_counts-some v.tables v.listed ∙ q in
      let clean =
        verify_no_duplicates-some v.tables v.listed ∙ IsUnique-duplicates_in v.tables v.unique in
      ground (arith, v.reachable, v.same_row, some_rows, clean)

  counted_tables :
      (r : Text × ℕ) (rs : List (Text × ℕ))
      → stg_row_counts w h target sid ≡ some (r ∷ rs)
      → (ts : List Text) × (w.stg_tables h target ≡ some ts)
  unfolding stg_row_counts
  counted_tables r rs e = elim (Option-cases (w.stg_tables h target)) [
    | inl n ↦ absurd (ground arith)
    | inr p ↦ p
  ]

  verified :
      (name : Text) (r : Text × ℕ) (rs : List (Text × ℕ))
      → w.connects h target ≡ true
      → w.scenario_id h target name ≡ some (some sid)
      → stg_row_counts w h target sid ≡ some (r ∷ rs)
      → verify_no_duplicates w h target sid ≡ some []
      → Verified name
  verified name r rs c i k d =
      let (ts, l) = counted_tables r rs k in
      record {
        reachable = c;
        same_row = i;
        tables = ts;
        listed = l;
        not_empty = counts_in-SomeRows ts r rs (sym (stg_row_counts-some ts l) ∙ k);
        unique = duplicates_in-IsUnique ts (sym (verify_no_duplicates-some ts l) ∙ d);
      }

  look_up-Verified : (name : Text) → look_up w h target name sid ≡ checked [] → Verified name
  unfolding look_up same_id
  look_up-Verified name e = elim (Bool-cases (w.connects h target)) [
    | inr c ↦ absurd (ground arith)
    | inl c ↦ elim (Option-cases (w.scenario_id h target name)) [
      | inl n ↦ absurd (ground arith)
      | inr (none, i) ↦ absurd (ground arith)
      | inr (some n, i) ↦ elim (Option-cases (stg_row_counts w h target sid)) [
        | inl n ↦ absurd (ground arith)
        | inr ([], k) ↦ absurd (ground arith)
        | inr (r ∷ rs, k) ↦ verified name r rs c (ground arith) k (ground arith)
      ]
    ]
  ]

  -- The checks pass exactly when the scenario is verified: same row, some rows, and none of them twice.
  pub look_up_iff : (name : Text) → (look_up w h target name sid ≡ checked []) ↔ Verified name
  look_up_iff name = (look_up-Verified name, Verified-look_up name)
