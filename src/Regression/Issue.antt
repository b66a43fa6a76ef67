-- ===== src/Regression/Issue.antt =====
-- scripts/dmt_regression_run.py: `_ISSUE_PATTERNS` and `issue_key`.
use data_migration_tool.Prelude.{
  ℕ, String, Bool, true, false, not, ◌&&◌, ◌||◌, Option, none, some, List, [], ◌∷◌, leb, nat_beq,
  if◌then◌else◌, is_empty,
}
use data_migration_tool.Prelude.Text.{Text, codes, has_prefix, is_space}
use mathlib.Core.List.{reverse}

pub record IssueKey : Type 0 where
  pub category : Text
  pub object : Option Text
  pub sub : Option Text
  pub key : Option Text

-- the text behind a literal at its start
unfoldable pub after : Text → Text → Option Text
after [] s = some s
after (x ∷ p) [] = none
after (x ∷ p) (y ∷ s) = let rest = after p s in if nat_beq x y then rest else none

-- the longest start of the text in which every character passes, and what follows it
unfoldable pub span : (ℕ → Bool) → Text → Text × Text
span q [] = ([], [])
span q (c ∷ s) = let r = span q s in if q c then (c ∷ r.0, r.1) else ([], c ∷ s)

-- (.+?) in front of the first place where the test passes
unfoldable pub until_when : (Text → Bool) → Text → Option Text
until_when q [] = none
until_when q (c ∷ s) =
    let rest = until_when q s in
    if nat_beq c 10
    then none
    else if q s
    then some (c ∷ [])
    else elim rest [ none ↦ none | some t ↦ some (c ∷ t) ]

-- (\S+)
unfoldable pub word : Text → Option Text
unfolding span
word s = let r = span (λ c. not (is_space c)) s in if is_empty r.0 then none else some r.0

unfoldable pub is_digit_code : ℕ → Bool
is_digit_code c = leb b'0' c && leb c b'9'

unfoldable pub is_caps : ℕ → Bool
is_caps c = (leb b'A' c && leb c b'Z') || nat_beq c b'_'

-- \b at the start of what follows a word character
unfoldable pub ends_word : Text → Bool
ends_word [] = true
ends_word (c ∷ s) = not (is_caps c || (is_digit_code c || (leb b'a' c && leb c b'z')))

-- `: [A-Z_]+\b`
unfoldable pub is_rest_status : Text → Bool
is_rest_status s = elim (after (codes ": ") s) [
  | none ↦ false
  | some t ↦ let r = span is_caps t in not (is_empty r.0) && ends_word r.1
]

-- ` (\d+ rows`
unfoldable pub is_row_count : Text → Bool
is_row_count s = elim (after (codes " (") s) [
  | none ↦ false
  | some t ↦ let r = span is_digit_code t in not (is_empty r.0) && has_prefix (codes " rows") r.1
]

-- `(.+)$`: the last line, which may end in a newline
unfoldable pub last_line : Text → Option Text
last_line s =
    let r = span (λ c. not (nat_beq c 10)) s in
    if is_empty r.0
    then none
    else elim r.1 [ [] ↦ some r.0 | c ∷ t ↦ if is_empty t then some r.0 else none ]

-- ` / (.+)$`
unfoldable pub row_key : Text → Option Text
unfolding after last_line
row_key s = elim (after (codes " / ") s) [ none ↦ none | some t ↦ last_line t ]

abbrev pub is_some : Option Text → Bool
is_some none = false
is_some (some t) = true

unfoldable pub drop : Text → Text → Text
drop [] s = s
drop (x ∷ p) [] = []
drop (x ∷ p) (y ∷ s) = drop p s

abbrev pub object_key : String → Option Text → Option IssueKey
object_key category none = none
object_key category (some o) =
    some (record { category = codes category; object = some o; sub = none; key = none })

abbrev pub sub_key : String → Option Text → Option IssueKey
sub_key category none = none
sub_key category (some s) =
    some (record { category = codes category; object = none; sub = some s; key = none })

-- queue stuck: (\S+) left in
unfoldable pub stuck_object : Text → Option Text
unfolding word span
stuck_object s =
    if has_prefix (codes " left in ") (span (λ c. not (is_space c)) s).1 then word s else none

-- REST verify ([^/:]+)/(.+?): [A-Z_]+\b
unfoldable pub rest_verify : Text → Option IssueKey
rest_verify s =
    let r = span (λ c. not (nat_beq c b'/' || nat_beq c b':')) s in
    if is_empty r.0 then none else elim (after (codes "/") r.1) [
      | none ↦ none
      | some t ↦ elim (until_when is_rest_status t) [
        | none ↦ none
        | some sub ↦ some (record {
          category = codes "REST_VERIFY";
          object = some r.0;
          sub = some sub;
          key = none;
        })
      ]
    ]

-- \S+: (.+?) / (.+)$, where \S+ and the colon are a run of at least two characters
unfoldable pub non_terminal : Text → Option IssueKey
non_terminal s =
    let r = span (λ c. not (is_space c)) s in
    if not (elim (reverse r.0) [ [] ↦ false | c ∷ t ↦ nat_beq c b':' && not (is_empty t) ])
    then none
    else elim (after (codes " ") r.1) [
      | none ↦ none
      | some t ↦ elim (until_when (λ u. is_some (row_key u)) t) [
        | none ↦ none
        | some sub ↦ elim (row_key (drop sub t)) [
          | none ↦ none
          | some key ↦ some (record {
            category = codes "NON_TERMINAL_ROW";
            object = none;
            sub = some sub;
            key = some key;
          })
        ]
      ]
    ]

-- a pattern: a literal, and what follows it
unfoldable pub pattern_of : String → (Text → Option IssueKey) → Text → Option IssueKey
pattern_of lit f item = elim (after (codes lit) item) [ none ↦ none | some s ↦ f s ]

abbrev pub patterns : List (Text → Option IssueKey)
patterns =
    pattern_of "DONE with zero records: " (λ s. object_key "ZERO_RECORDS" (word s))
    ∷ pattern_of "REST verify " rest_verify
    ∷ pattern_of "queue FAILED: " (λ s. object_key "QUEUE_FAILED" (word s))
    ∷ pattern_of "queue stuck: " (λ s. object_key "QUEUE_STUCK" (stuck_object s))
    ∷ pattern_of "EXPECTED OUTCOME not met: "
        (λ s. sub_key "EXPECTED_OUTCOME" (until_when (has_prefix (codes ": ")) s))
    ∷ pattern_of "GOOD rows FAILED: " (λ s. sub_key "GOOD_ROWS_FAILED" (until_when is_row_count s))
    ∷ pattern_of "BAD rows LOADED (validation gap): "
        (λ s. sub_key "BAD_ROWS_LOADED" (until_when (has_prefix (codes ": ")) s))
    ∷ pattern_of "FAILED rows with EMPTY error text: "
        (λ s. sub_key "EMPTY_ERROR_TEXT" (until_when (has_prefix (codes ": ")) s))
    ∷ pattern_of "row in non-terminal status " non_terminal
    ∷ []

unfoldable pub first_match : List (Text → Option IssueKey) → Text → Option IssueKey
first_match [] item = none
first_match (p ∷ ps) item = elim (p item) [ none ↦ first_match ps item | some k ↦ some k ]

-- the row key without the run's prefix
unfoldable pub strip_prefix : Option Text → Option Text → Option Text
strip_prefix none prefix = none
strip_prefix (some k) none = some k
strip_prefix (some k) (some p) =
    if not (is_empty k) && (not (is_empty p) && has_prefix p k) then some (drop p k) else some k

unfoldable pub issue_key : Text → Option Text → Option IssueKey
issue_key item prefix = elim (first_match patterns item) [
  | none ↦ none
  | some k ↦ some (record k { key = strip_prefix k.key prefix })
]
