-- ===== src/Regression/Rows.antt =====
-- scripts/dmt_regression_run.py: which rows are bad seeds, and step 2 of `evaluate`, the verdicts on
-- the records. A character is ASCII where the regular expressions look at digits and word characters.
pub mod Counts
pub mod Tallies
pub mod Clean
mod Tests
use data_migration_tool.Prelude.{
  ℕ, ◌-◌, String, Bool, true, false, not, ◌&&◌, ◌||◌, Option, none, some, List, [], ◌∷◌, leb,
  nat_beq, if◌then◌else◌, is_empty, any,
}
use data_migration_tool.Prelude.Text.{Text, codes, text_eq, has_prefix, lstrip, strip, upper}

-- sub in text
unfoldable pub contains : Text → Text → Bool
contains p [] = is_empty p
contains p (c ∷ s) = has_prefix p (c ∷ s) || contains p s

abbrev pub bad_key_markers : List String
bad_key_markers = "BAD" ∷ "DOES NOT EXIST" ∷ "GHOST" ∷ "NONEXIST" ∷ "INVALID" ∷ "FAKE" ∷ []

unfoldable pub is_digit : ℕ → Bool
is_digit c = leb b'0' c && leb c b'9'

unfoldable pub is_word : ℕ → Bool
unfolding is_digit
is_word c = is_digit c || (leb b'A' c && leb c b'Z') || (leb b'a' c && leb c b'z') || nat_beq c b'_'

-- \d*\b after a digit
unfoldable pub digits_to_boundary : Text → Bool
digits_to_boundary [] = true
digits_to_boundary (c ∷ s) = if is_digit c then digits_to_boundary s else not (is_word c)

-- -B\d+\b at the start of the text
unfoldable pub is_bad_suffix : Text → Bool
is_bad_suffix (a ∷ (b ∷ (d ∷ s))) =
    nat_beq a b'-' && (nat_beq b b'B' && (is_digit d && digits_to_boundary s))
is_bad_suffix _ = false

-- BAD_KEY_REGEX.search
unfoldable pub bad_key_regex : Text → Bool
bad_key_regex [] = false
bad_key_regex (c ∷ s) = is_bad_suffix (c ∷ s) || bad_key_regex s

abbrev pub text_or_empty : Option Text → Text
text_or_empty none = []
text_or_empty (some t) = t

unfoldable pub is_bad_key : Option Text → Bool
is_bad_key display_key =
    let k = upper (text_or_empty display_key) in
    any (λ m. contains (codes m) k) bad_key_markers || bad_key_regex k

-- the characters up to the first `]`, if there is one
unfoldable pub to_bracket : Text → Option Text
to_bracket [] = none
to_bracket (c ∷ s) =
    let rest = to_bracket s in
    if nat_beq c b']' then some [] else elim rest [ none ↦ none | some t ↦ some (c ∷ t) ]

-- re.match(r'\s*\[([^\]]+)\]', text)
unfoldable pub error_category : Text → Option Text
error_category text = elim (lstrip text) [
  | [] ↦ none
  | c ∷ s ↦
      if not (nat_beq c b'[')
      then none
      else elim (to_bracket s) [ none ↦ none | some t ↦ if is_empty t then none else some t ]
]

unfoldable pub is_bad_row : Option Text → Text → Bool
is_bad_row display_key error_text =
    if is_bad_key display_key then true else elim (error_category (upper error_text)) [
      | none ↦ false
      | some t ↦ text_eq (strip t) (codes "PRE_VALIDATION")
    ]

-- TFM_STATUS, as far as the code tells its values apart
pub data Status : Type 0 where
  loaded failed : Status
  other : Text → Status

-- EXPECTED_VALUES
pub data Expect : Type 0 where
  expect_loaded expect_failed expect_doc : Expect

-- A row of DMT_RECORD_DETAIL_V; the error text is that with its white space collapsed.
pub record Record : Type 0 where
  pub cemli : Text
  pub sub : Text
  pub key : Option Text
  pub status : Status
  pub err_txt : Text
  pub stg_seq : Option ℕ
  pub doc_pos : ℕ
  pub fusion_id : Option Text

-- (SUB_OBJECT, STG_SEQUENCE_ID) -> (SOURCE_ID, outcome)
abbrev pub Expected : Type 0
Expected = List ((Text × Option ℕ) × (Text × Expect))

unfoldable pub same_seq : Option ℕ → Option ℕ → Bool
same_seq none none = true
same_seq (some a) (some b) = nat_beq a b
same_seq _ _ = false

unfoldable pub lookup_expected : Expected → Text → Option ℕ → Option (Text × Expect)
lookup_expected [] sub seq = none
lookup_expected (((s, q), e) ∷ exp) sub seq =
    let rest = lookup_expected exp sub seq in
    if text_eq s sub && same_seq q seq then some e else rest

pub data Problem : Type 0 where
  wanted : Expect → Status → Problem
  no_marker : Problem

-- the chain of tests on a listed row
unfoldable pub problem_of : Expect → Status → ℕ → Option Problem
problem_of expect_loaded loaded doc_pos = none
problem_of expect_loaded s doc_pos = some (wanted expect_loaded s)
problem_of expect_failed failed doc_pos = none
problem_of expect_failed s doc_pos = some (wanted expect_failed s)
problem_of expect_doc failed doc_pos = if nat_beq doc_pos 0 then some no_marker else none
problem_of expect_doc s doc_pos = some (wanted expect_doc s)

abbrev pub is_expect_loaded : Expect → Bool
is_expect_loaded expect_loaded = true
is_expect_loaded _ = false

-- outcome != EXPECT_LOADED for a listed row, the key's marker for any other
unfoldable pub is_bad : Expected → Record → Bool
is_bad exp r = elim (lookup_expected exp r.sub r.stg_seq) [
  | some e ↦ not (is_expect_loaded e.1)
  | none ↦ is_bad_row r.key r.err_txt
]
