-- ===== src/Golden/Compare.antt =====
-- `main` of test/golden/compare_fbdi.py: the compare of two zips under an object's map. A zip is its names
-- and what they hold.
pub mod Same
use data_migration_tool.Prelude.{
  ℕ, ◌+◌, Bool, not, Option, none, some, List, [], ◌∷◌, ◌++◌, map, if◌then◌else◌, length, any, keep,
}
use data_migration_tool.Prelude.Text.{Text, codes, text_eq}
use data_migration_tool.Regression.Rows.Counts.{text_le}
use data_migration_tool.Golden.Csv.{
  Codec, Records, Problem, Parsed, parsed, problem, parse_records, serialize,
}
use data_migration_tool.Golden.Dat.{parse_dat_records, serialize_dat}
use data_migration_tool.Golden.Diff.{Diff, DateProblem, diff_records, mask_dates}
use data_migration_tool.Golden.Tokens.{Token, Mode, apply_tokens, replace_from}

pub record TokenSpec : Type 0 where
  pub golden : Text
  pub local : Text
  pub placeholder : Text
  pub match_mode : Mode
  pub fields : Option (List ℕ)
  pub max_len : Option ℕ

pub record MemberSpec : Type 0 where
  pub is_dat : Bool
  pub crlf : Bool
  pub tokens : List TokenSpec
  pub date_mask_fields : List ℕ

pub record Zip : Type 0 where
  pub names : List Text
  pub read : Text → Text

-- the run's prefix and id: $PREFIX and $RUN_ID
pub record LocalRun : Type 0 where
  pub prefix : Text
  pub run_id : Text

pub data Finding : Type 0 where
  undeclared_golden undeclared_generated missing_golden missing_generated : Text → Finding
  drift : Text → Finding
  differs : Text → Diff → Finding

abbrev replace_all : Text → Text → Text → Text
replace_all old new s = replace_from old new 0 s

-- the local literal of a token
unfoldable pub local_literal : LocalRun → Text → Text
unfolding text_eq replace_from
local_literal run lv =
    if text_eq lv (codes "$PREFIX")
    then run.prefix
    else if text_eq lv (codes "$RUN_ID")
    then run.run_id
    else replace_all (codes "$RUN_ID") run.run_id (replace_all (codes "$PREFIX") run.prefix lv)

unfoldable pub token_of : Text → LocalRun → TokenSpec → Token
unfolding local_literal
token_of literal run t = record {
  literal = literal;
  placeholder = t.placeholder;
  mode = t.match_mode;
  fields = t.fields;
  max_len = t.max_len;
  local_len = length (local_literal run t.local);
}

unfoldable pub golden_tokens : LocalRun → List TokenSpec → List Token
unfolding token_of
golden_tokens run ts = map (λ t. token_of t.golden run t) ts

unfoldable pub local_tokens : LocalRun → List TokenSpec → List Token
unfolding token_of
local_tokens run ts = map (λ t. token_of (local_literal run t.local) run t) ts

-- both sides after the tokens and the masks
unfoldable pub normalized :
    LocalRun → MemberSpec → Records → Records → Records × Records × List DateProblem
unfolding golden_tokens local_tokens apply_tokens mask_dates
normalized run m gs ls =
    mask_dates (apply_tokens gs (golden_tokens run m.tokens))
      (apply_tokens ls (local_tokens run m.tokens)) m.date_mask_fields

abbrev pub is_in : Text → List Text → Bool
is_in name names = any (λ n. text_eq n name) names

module _ (c : Codec) where
  unfoldable pub parse_member : MemberSpec → Text → Parsed
  unfolding parse_records parse_dat_records
  parse_member m bytes =
      if m.is_dat then parse_dat_records c bytes else parse_records c m.crlf bytes

  unfoldable pub serialize_member : MemberSpec → Records → Text
  unfolding serialize serialize_dat
  serialize_member m rs = c.encode (if m.is_dat then serialize_dat rs else serialize m.crlf rs)

  -- both sides are read
  unfoldable pub compare_records : LocalRun → Text → MemberSpec → Records → Records → List Finding
  unfolding normalized serialize_member diff_records
  compare_records run name m gs ls =
      let (gs', ls', ps) = normalized run m gs ls in
      if text_eq (serialize_member m gs') (serialize_member m ls')
      then []
      else map (differs name) (diff_records 20 gs' ls')

  unfoldable pub compare_parsed : LocalRun → Text → MemberSpec → Parsed → Parsed → List Finding
  unfolding compare_records
  compare_parsed run name m (parsed gs) (parsed ls) = compare_records run name m gs ls
  compare_parsed run name m (problem p) ls = drift name ∷ []
  compare_parsed run name m (parsed gs) (problem p) = drift name ∷ []

  unfoldable pub compare_member : LocalRun → Zip → Zip → Text → MemberSpec → List Finding
  unfolding compare_parsed parse_member
  compare_member run g l name m =
      if not (is_in name g.names)
      then missing_golden name ∷ []
      else if not (is_in name l.names)
      then missing_generated name ∷ []
      else if text_eq (g.read name) (l.read name)
      then []
      else compare_parsed run name m (parse_member m (g.read name)) (parse_member m (l.read name))

  unfoldable pub compare_members : LocalRun → Zip → Zip → List (Text × MemberSpec) → List Finding
  unfolding compare_member
  compare_members run g l [] = []
  compare_members run g l ((name, m) ∷ ms) =
      compare_member run g l name m ++ compare_members run g l ms

-- sorted(set(names)), by insertion
unfoldable pub insert_name : Text → List Text → List Text
unfolding text_le text_eq
insert_name n [] = n ∷ []
insert_name n (m ∷ ms) =
    let rest = insert_name n ms in
    if text_eq n m then m ∷ ms else if text_le n m then n ∷ (m ∷ ms) else m ∷ rest

unfoldable pub sorted_set : List Text → List Text
unfolding insert_name
sorted_set [] = []
sorted_set (n ∷ ns) = insert_name n (sorted_set ns)

-- the names that the map does not declare
unfoldable pub undeclared : List (Text × MemberSpec) → List Text → List Text
unfolding sorted_set
undeclared ms names = sorted_set (keep (λ n. not (any (λ m. text_eq m.0 n) ms)) names)

unfoldable pub findings : Codec → LocalRun → Zip → Zip → List (Text × MemberSpec) → List Finding
unfolding undeclared compare_members
findings c run g l ms =
    map undeclared_golden (undeclared ms g.names)
    ++ map undeclared_generated (undeclared ms l.names)
    ++ compare_members c run g l ms

-- the exit code; `none` is an object that is not in the map or a zip that is not there
unfoldable pub exit_code : Option (List Finding) → ℕ
exit_code none = 2
exit_code (some []) = 0
exit_code (some (d ∷ ds)) = 1

unfoldable pub main :
    Codec → LocalRun → Option Zip → Option Zip → Option (List (Text × MemberSpec)) → ℕ
unfolding findings exit_code
main c run golden generated members = exit_code (elim members [
  | none ↦ none
  | some ms ↦ elim golden [
    | none ↦ none
    | some g ↦ elim generated [ none ↦ none | some l ↦ some (findings c run g l ms) ]
  ]
])
