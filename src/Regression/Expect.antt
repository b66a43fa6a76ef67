-- ===== src/Regression/Expect.antt =====
-- scripts/dmt_regression_run.py: the expected outcomes of listed rows, from the scenario file to the
-- records of a run, and the check of what a FAILED-mode run picked. A staging table is a list of rows.
pub mod Selected
pub mod Chunks
mod Tests
use data_migration_tool.Prelude.{
  ℕ, zero, suc, ◌+◌, ◌/◌, Bool, false, not, ◌&&◌, ◌||◌, Option, none, some, List, [], ◌∷◌, ◌++◌,
  map, ltb, leb, nat_beq, if◌then◌else◌, length, is_empty, any, all, keep,
}
use data_migration_tool.Prelude.Text.{Text, codes, text_eq, has_prefix, has_suffix}
use data_migration_tool.Regression.Issue.{is_digit_code}
use data_migration_tool.Regression.Rows.{
  Expect, expect_loaded, expect_failed, expect_doc, Record, Expected, same_seq,
}

-- an entry of "expected_outcomes": `none` is a missing or empty key_col
pub record Listed : Type 0 where
  pub stg_table : Text
  pub key_col : Option Text
  pub rows : List (Text × Text)

-- the entry once its outcomes are checked
pub record SubSpec : Type 0 where
  pub stg_table : Text
  pub key_col : Text
  pub rows : List (Text × Expect)

abbrev pub Spec : Type 0
Spec = List (Text × SubSpec)

unfoldable pub key_col : Option Text → Text
key_col none = codes "SOURCE_ID"
key_col (some c) = if is_empty c then codes "SOURCE_ID" else c

-- `$` lets a newline follow
unfoldable pub chomp : Text → Text
chomp [] = []
chomp (c ∷ []) = if nat_beq c 10 then [] else c ∷ []
chomp (c ∷ (d ∷ s)) = c ∷ chomp (d ∷ s)

abbrev pub is_upper : ℕ → Bool
is_upper c = leb b'A' c && leb c b'Z'

unfoldable pub is_ident : ℕ → Bool
is_ident c = is_upper c || (is_digit_code c || nat_beq c b'_')

-- _STG_IDENT
unfoldable pub is_stg_table : Text → Bool
is_stg_table t =
    let u = chomp t in
    has_prefix (codes "DMT_") u
    && (has_suffix (codes "_STG_TBL") u && (ltb 12 (length u) && all is_ident u))

-- _COL_IDENT
unfoldable pub is_column : Text → Bool
is_column t = elim (chomp t) [
  | [] ↦ false
  | c ∷ s ↦ is_upper c && (leb (length s) 29 && all is_ident s)
]

unfoldable pub outcome_of : Text → Option Expect
outcome_of t =
    if text_eq t (codes "LOADED")
    then some expect_loaded
    else if text_eq t (codes "FAILED")
    then some expect_failed
    else if text_eq t (codes "FAILED_WITH_DOCUMENT")
    then some expect_doc
    else none

-- sys.exit, or a value
pub data Bad : Type 0 where
  bad_stg_table bad_key_col : Text → Text → Bad
  bad_outcome : Text → Text → Text → Bad

pub data Checked (A : Type 0) : Type 0 where
  exits : Bad → Checked A
  checked : A → Checked A

unfoldable pub check_rows : Text → List (Text × Text) → Checked (List (Text × Expect))
check_rows sub [] = checked []
check_rows sub ((src, o) ∷ rows) =
    let rest = check_rows sub rows in
    elim (outcome_of o) [
      | none ↦ exits (bad_outcome sub src o)
      | some x ↦ elim rest [ exits b ↦ exits b | checked l ↦ checked ((src, x) ∷ l) ]
    ]

unfoldable pub check_sub : Text → Listed → Checked SubSpec
check_sub sub d =
    if not (is_stg_table d.stg_table)
    then exits (bad_stg_table sub d.stg_table)
    else if not (is_column (key_col d.key_col))
    then exits (bad_key_col sub (key_col d.key_col))
    else elim (check_rows sub d.rows) [
      | exits b ↦ exits b
      | checked l ↦
          checked (record { stg_table = d.stg_table; key_col = key_col d.key_col; rows = l })
    ]

unfoldable pub check_subs : List (Text × Listed) → Checked Spec
check_subs [] = checked []
check_subs ((sub, d) ∷ l) =
    let rest = check_subs l in
    elim (check_sub sub d) [
      | exits b ↦ exits b
      | checked s ↦ elim rest [ exits b ↦ exits b | checked sp ↦ checked ((sub, s) ∷ sp) ]
    ]

-- the file's part for the scenario; `none` is a file that cannot be read
unfoldable pub load_expected_outcomes : Option (List (Text × Listed)) → Checked Spec
load_expected_outcomes none = checked []
load_expected_outcomes (some l) = check_subs l

-- a staging table and a key column of it: STG_SEQUENCE_ID and the key
abbrev pub Staging : Type 0
Staging = Text → Text → List (ℕ × Text)

-- the first n, and the rest
unfoldable pub cut : {A : Type 0} → ℕ → List A → List A × List A
cut zero l = ([], l)
cut (suc n) [] = ([], [])
cut (suc n) (x ∷ l) = let r = cut n l in (x ∷ r.0, r.1)

-- for i in range(0, len(seqs), 500), on as much fuel as there are values
unfoldable pub chunks : ℕ → ℕ → List ℕ → List (List ℕ)
chunks zero n l = []
chunks (suc fuel) n [] = []
chunks (suc fuel) n (x ∷ l) = let r = cut n (x ∷ l) in r.0 ∷ chunks fuel n r.1

unfoldable pub outcome_for : Text → List (Text × Expect) → Option Expect
outcome_for src [] = none
outcome_for src ((s, x) ∷ rows) =
    let rest = outcome_for src rows in if text_eq s src then some x else rest

-- exp[(sub, seq)] = (src, outcome)
unfoldable pub set_expected : Text → Option ℕ → Text × Expect → Expected → Expected
set_expected sub seq v [] = ((sub, seq), v) ∷ []
set_expected sub seq v (((s, q), w) ∷ exp) =
    if text_eq s sub && same_seq q seq
    then ((sub, seq), v) ∷ exp
    else ((s, q), w) ∷ set_expected sub seq v exp

-- the rows that a query for one chunk returns, one by one
unfoldable pub take_rows :
    Text → SubSpec → List (ℕ × Text) → Expected × List Text → Expected × List Text
take_rows sub d [] acc = acc
take_rows sub d ((seq, src) ∷ l) (exp, found) = elim (outcome_for src d.rows) [
  | none ↦ take_rows sub d l (exp, found)
  | some x ↦ take_rows sub d l (set_expected sub (some seq) (src, x) exp, src ∷ found)
]

unfoldable pub select_chunk : Staging → SubSpec → List ℕ → List (ℕ × Text)
select_chunk stg d chunk = keep (λ r. any (λ q. nat_beq q r.0) chunk) (stg d.stg_table d.key_col)

unfoldable pub take_chunks :
    Staging → Text → SubSpec → List (List ℕ) → Expected × List Text → Expected × List Text
take_chunks stg sub d [] acc = acc
take_chunks stg sub d (c ∷ cs) acc =
    take_chunks stg sub d cs (take_rows sub d (select_chunk stg d c) acc)

-- the STG_SEQUENCE_IDs of the records of one sub-object
unfoldable pub seqs_of : Text → List Record → List ℕ
seqs_of sub [] = []
seqs_of sub (r ∷ rs) =
    let rest = seqs_of sub rs in
    if text_eq r.sub sub then elim r.stg_seq [ none ↦ rest | some q ↦ q ∷ rest ] else rest

abbrev pub slash : Text → Text → Text
slash sub src = sub ++ (codes " / " ++ src)

unfoldable pub resolve_expectations : Staging → Spec → List Record → Expected → Expected × List Text
resolve_expectations stg [] records exp = (exp, [])
resolve_expectations stg ((sub, d) ∷ spec) records exp =
    if not (any (λ r. text_eq r.sub sub) records)
    then resolve_expectations stg spec records exp
    else let seqs = seqs_of sub records in
      let (exp', found) = take_chunks stg sub d (chunks (length seqs) 500 seqs) (exp, []) in
      let rest = resolve_expectations stg spec records exp' in
      (
        rest.0,
        map (λ e. slash sub e.0) (keep (λ e. not (any (λ f. text_eq f e.0) found)) d.rows)
            ++ rest.1,
      )

-- a staging row of the scenario: STG_SEQUENCE_ID, key, and whether FAILED_RETRY_SELECTED says 'Y'
pub record Pick : Type 0 where
  pub seq : ℕ
  pub src : Option Text
  pub pick : Bool

pub data SelectionFailure : Type 0 where
  no_scenario : SelectionFailure
  picked skipped : Text → ℕ → Option (Option Text) → SelectionFailure

abbrev pub member : ℕ → List ℕ → Bool
member q l = any (λ p. nat_beq p q) l

unfoldable pub insert_number : ℕ → List ℕ → List ℕ
insert_number q [] = q ∷ []
insert_number q (p ∷ l) =
    if nat_beq q p then p ∷ l else if ltb q p then q ∷ p ∷ l else p ∷ insert_number q l

-- sorted(set(l))
unfoldable pub sorted_set : List ℕ → List ℕ
sorted_set [] = []
sorted_set (q ∷ l) = insert_number q (sorted_set l)

abbrev pub wanted_seqs : List Pick → List ℕ
wanted_seqs rows = map (λ r. r.seq) (keep (λ r. r.pick) rows)

abbrev pub without : List ℕ → List ℕ → List ℕ
without a b = keep (λ q. not (member q b)) a

-- src_of.get(seq); a later row of the same number replaces an earlier one
unfoldable pub src_of : ℕ → List Pick → Option (Option Text)
src_of q [] = none
src_of q (r ∷ rows) =
    let rest = src_of q rows in
    elim rest [ some s ↦ some s | none ↦ if nat_beq r.seq q then some r.src else none ]

-- the loop's body: the failures of one sub-object
unfoldable pub selection_failures : Text → List Pick → List ℕ → List SelectionFailure
selection_failures sub rows got =
    map (λ q. picked sub q (src_of q rows)) (sorted_set (without got (wanted_seqs rows)))
    ++ map (λ q. skipped sub q (src_of q rows)) (sorted_set (without (wanted_seqs rows) got))

-- str(src_of.get(s))
unfoldable pub show_src : Option (Option Text) → Text
show_src (some (some t)) = t
show_src _ = codes "None"

-- the missing rows of the sub-object that should have been retried
unfoldable pub lacking_missing : Text → List Pick → List ℕ → List Text → List Text
lacking_missing sub rows got missing =
    let lacking =
      map (λ q. slash sub (show_src (src_of q rows))) (without (wanted_seqs rows) got) in
    keep (λ m. has_prefix (slash sub []) m && any (λ l. text_eq l m) lacking) missing

-- the sub-objects that are checked: in the run, or with a missing row
unfoldable pub selection_subs :
    (Text → List Pick) → Spec → List Record → List Text → List SelectionFailure × List Text
selection_subs picks [] records missing = ([], [])
selection_subs picks ((sub, d) ∷ spec) records missing =
    let rest = selection_subs picks spec records missing in
    if not (any (λ r. text_eq r.sub sub) records) && not (any (has_prefix (slash sub [])) missing)
    then rest
    else let rows = picks d.stg_table in
      let got = seqs_of sub records in
      (selection_failures sub rows got ++ rest.0, lacking_missing sub rows got missing ++ rest.1)

-- `none` for the scenario: it is not in DMT_SCENARIO_TBL
unfoldable pub check_failed_mode_selection :
    Option (Text → List Pick) → Spec → List Record → List Text → List SelectionFailure × List Text
check_failed_mode_selection none spec records missing = (no_scenario ∷ [], missing)
check_failed_mode_selection (some picks) spec records missing =
    selection_subs picks spec records missing
