-- ===== src/Golden/Diff.antt =====
-- `is_fbdi_date`, `mask_dates` and `diff_records` of test/golden/compare_fbdi.py.
pub mod Equal
use data_migration_tool.Prelude.{
  ℕ, zero, suc, ◌+◌, ◌/◌, ◌<◌, Bool, true, false, not, ◌&&◌, ◌||◌, Option, none, some, List, [],
  ◌∷◌, ◌++◌, leb, nat_beq, if◌then◌else◌, length,
}
use data_migration_tool.Prelude.Text.{Text, codes, text_eq}
use data_migration_tool.Regression.Rows.{is_digit}
use data_migration_tool.Golden.Csv.{Records}

-- YYYY/MM/DD
unfoldable pub is_fbdi_date_from : ℕ → Text → Bool
unfolding is_digit
is_fbdi_date_from i [] = true
is_fbdi_date_from i (c ∷ v) =
    (if nat_beq i 4 || nat_beq i 7 then nat_beq c b'/' else is_digit c)
    && is_fbdi_date_from (i + 1) v

unfoldable pub is_fbdi_date : Text → Bool
unfolding is_fbdi_date_from
is_fbdi_date v = nat_beq (length v) 10 && is_fbdi_date_from 0 v

unfoldable pub field_at : List Text → ℕ → Option Text
field_at [] n = none
field_at (f ∷ fs) zero = some f
field_at (f ∷ fs) (suc n) = field_at fs n

unfoldable pub set_field : ℕ → Text → List Text → List Text
set_field n v [] = []
set_field zero v (f ∷ fs) = v ∷ fs
set_field (suc n) v (f ∷ fs) = f ∷ set_field n v fs

-- row, position and the two values
abbrev pub DateProblem : Type 0
DateProblem = ℕ × ℕ × Text × Text

-- both records, and the problems
abbrev pub Masked : Type 0
Masked = List Text × List Text × List DateProblem

unfoldable pub mask_field : ℕ → ℕ → Masked → Masked
unfolding field_at set_field text_eq is_fbdi_date
mask_field row pos (g, l, ps) = elim (field_at g pos) [
  | none ↦ (g, l, ps)
  | some gv ↦ elim (field_at l pos) [
    | none ↦ (g, l, ps)
    | some lv ↦
        if text_eq gv lv
        then (g, l, ps)
        else if is_fbdi_date gv && is_fbdi_date lv
        then (set_field pos (codes "<DATE>") g, set_field pos (codes "<DATE>") l, ps)
        else (g, l, ps ++ (row, pos, gv, lv) ∷ [])
  ]
]

unfoldable pub mask_record : ℕ → List ℕ → Masked → Masked
unfolding mask_field
mask_record row [] m = m
mask_record row (pos ∷ more) m = mask_record row more (mask_field row pos m)

-- zip stops at the shorter list, whose rest stays as it is
unfoldable pub mask_from : ℕ → Records → Records → List ℕ → Records × Records × List DateProblem
unfolding mask_record
mask_from row [] ls positions = ([], ls, [])
mask_from row (g ∷ gs) [] positions = (g ∷ gs, [], [])
mask_from row (g ∷ gs) (l ∷ ls) positions =
    let (g', l', ps) = mask_record row positions (g, l, []) in
    let (gs', ls', qs) = mask_from (row + 1) gs ls positions in (g' ∷ gs', l' ∷ ls', ps ++ qs)

unfoldable pub mask_dates : Records → Records → List ℕ → Records × Records × List DateProblem
unfolding mask_from
mask_dates gs ls positions = mask_from 1 gs ls positions

pub data Diff : Type 0 where
  row_count : ℕ → ℕ → Diff
  field_count : ℕ → ℕ → ℕ → Diff
  field : ℕ → ℕ → Text → Text → Diff
  suppressed : Diff

-- the diffs so far, and whether the report is full
abbrev pub Diffs : Type 0
Diffs = List Diff × Bool

-- a row's fields from column c on
unfoldable pub diff_fields : ℕ → ℕ → ℕ → List Text → List Text → List Diff → Diffs
unfolding text_eq
diff_fields max_report row c [] ls ds = (ds, false)
diff_fields max_report row c (g ∷ gs) [] ds = (ds, false)
diff_fields max_report row c (g ∷ gs) (l ∷ ls) ds =
    let same = text_eq g l in
    let ds' = (if same then ds else ds ++ field row c g l ∷ []) in
    let rest = diff_fields max_report row (c + 1) gs ls ds' in
    if not same && leb max_report (length ds') then (ds' ++ suppressed ∷ [], true) else rest

abbrev pub count_fields : ℕ → List Text → List Text → List Diff → List Diff
count_fields row g l ds =
    if nat_beq (length g) (length l) then ds else ds ++ field_count row (length g) (length l) ∷ []

unfoldable pub diff_rows : ℕ → ℕ → Records → Records → List Diff → List Diff
unfolding diff_fields
diff_rows max_report row [] ls ds = ds
diff_rows max_report row (g ∷ gs) [] ds = ds
diff_rows max_report row (g ∷ gs) (l ∷ ls) ds =
    let (ds', full) = diff_fields max_report row 0 g l (count_fields row g l ds) in
    let rest = diff_rows max_report (row + 1) gs ls ds' in if full then ds' else rest

unfoldable pub diff_records : ℕ → Records → Records → List Diff
unfolding diff_rows
diff_records max_report gs ls =
    diff_rows max_report 1 gs ls
      (if nat_beq (length gs) (length ls) then [] else row_count (length gs) (length ls) ∷ [])
