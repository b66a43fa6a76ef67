-- ===== src/Golden/Tests.antt =====
-- Small members and zips; the codec of these tests is that of ASCII bytes.
use data_migration_tool.Prelude.{◌≡◌, refl, ◌↔◌, true, false, none, some, [], ◌∷◌, arith, All}
use data_migration_tool.Prelude.Text.{codes, text_eq, has_prefix, join_with}
use data_migration_tool.Regression.Rows.{contains, is_digit}
use data_migration_tool.Golden.Csv.{
  Codec, IsCodec, Records, parsed, problem, not_terminated, format_drift, step, scan, doubled,
  quote, record_line, join_lines, serialize, checked, parse_records,
}
use data_migration_tool.Golden.Csv.RoundTrip.{HasFields, parse_records_iff}
use data_migration_tool.Golden.Dat.{serialize_dat, parse_dat_records}
use data_migration_tool.Golden.Dat.RoundTrip.{IsDatFile, parse_dat_records_iff}
use data_migration_tool.Golden.Tokens.{
  Token, startswith, prefix_digits, ref_id, substring, drop, replace_from, is_digits, skip_digits,
  skip_colon, ends_in_digits, is_ref_id, cut_to, apply_mode, apply_token, apply_field, insert_token,
  sort_tokens, apply_fields, apply_tokens,
}
use data_migration_tool.Golden.Tokens.Truncated.{prefixed, cut_token, apply_token-prefixed_agree}
use data_migration_tool.Golden.Diff.{
  field, is_fbdi_date, is_fbdi_date_from, field_at, set_field, mask_field, mask_record, mask_from,
  mask_dates, diff_fields, diff_rows, diff_records,
}
use data_migration_tool.Golden.Compare.{
  MemberSpec, Zip, LocalRun, local_literal, token_of, golden_tokens, local_tokens, normalized,
  parse_member, serialize_member, compare_records, compare_parsed, compare_member, compare_members,
  sorted_set, undeclared, findings, exit_code, main,
}
use data_migration_tool.Golden.Compare.Same.{SameZips, main-SameZips}

abbrev ascii : Codec
ascii = record { decode = λ b. some b; encode = λ t. t }

ascii-IsCodec : IsCodec ascii
ascii-IsCodec = record { decode_encode = λ t. refl; encode_decode = λ b t e. cc }

-- a quote, a comma and a line break inside fields
abbrev two_records : Records
two_records = (codes "a\"b" ∷ codes "c,d" ∷ []) ∷ (codes "e\nf" ∷ []) ∷ []

written : serialize false two_records ≡ codes "\"a\"\"b\",\"c,d\"\n\"e\nf\"\n"
unfolding serialize join_lines record_line join_with quote doubled
written = refl

unquoted : parse_records ascii false (codes "a\n") ≡ problem format_drift
unfolding parse_records scan step checked serialize join_lines record_line join_with quote doubled
    text_eq
unquoted = refl

unended : parse_records ascii true (codes "\"a\"") ≡ problem not_terminated
unfolding parse_records scan step checked
unended = refl

parse_records_iff_example :
    (parse_records ascii false (codes "\"a\"\"b\",\"c,d\"\n\"e\nf\"\n") ≡ parsed two_records) ↔ (
      All HasFields two_records
      × (serialize false two_records ≡ codes "\"a\"\"b\",\"c,d\"\n\"e\nf\"\n"))
parse_records_iff_example =
    parse_records_iff ascii ascii-IsCodec false (codes "\"a\"\"b\",\"c,d\"\n\"e\nf\"\n") two_records

abbrev dat : Records
dat = (codes "METADATA" ∷ codes "Worker" ∷ []) ∷ (codes "MERGE" ∷ codes "" ∷ []) ∷ []

parse_dat_records_iff_example :
    (parse_dat_records ascii (codes "METADATA|Worker\nMERGE|\n") ≡ parsed dat)
    ↔ (IsDatFile dat × (serialize_dat dat ≡ codes "METADATA|Worker\nMERGE|\n"))
parse_dat_records_iff_example =
    parse_dat_records_iff ascii ascii-IsCodec (codes "METADATA|Worker\nMERGE|\n") dat

abbrev token : Token
token = record {
  literal = codes "96";
  placeholder = codes "<P>";
  mode = substring;
  fields = none;
  max_len = none;
  local_len = 2;
}

replaced : apply_token token 0 (codes "a96b996") ≡ codes "a<P>b9<P>"
unfolding apply_token apply_mode contains replace_from has_prefix
replaced = refl

collapsed : apply_token (record token { mode = ref_id }) 0 (codes "DMT:12::7") ≡ codes "<P>"
unfolding apply_token apply_mode is_ref_id has_prefix drop skip_digits skip_colon ends_in_digits
    is_digit
collapsed = refl

kept : apply_token (record token { mode = ref_id }) 0 (codes "DMT:12:7") ≡ codes "DMT:12:7"
unfolding apply_token apply_mode is_ref_id has_prefix drop skip_digits skip_colon ends_in_digits
    is_digit
kept = refl

scoped : apply_token (record token { mode = prefix_digits }) 0 (codes "96-118") ≡ codes "<P>"
unfolding apply_token apply_mode is_digits has_prefix drop is_digit
scoped = refl

apply_token-prefixed_agree_example :
    apply_token
      (cut_token (codes "96") (codes "<P>") none 6 3)
      0
      (prefixed (codes "96") (codes "Acme") 6)
    ≡ apply_token
        (cut_token (codes "101") (codes "<P>") none 6 3)
        0
        (prefixed (codes "101") (codes "Acme") 6)
apply_token-prefixed_agree_example =
    apply_token-prefixed_agree (codes "96") (codes "101") (codes "<P>") (codes "Acme") none 0 6 refl
      (omega arith) (omega arith) refl

one_diff :
    diff_records 20 ((codes "a" ∷ codes "b" ∷ []) ∷ []) ((codes "a" ∷ codes "c" ∷ []) ∷ [])
    ≡ field 1 1 (codes "b") (codes "c") ∷ []
unfolding diff_records diff_rows diff_fields text_eq
one_diff = refl

abbrev spec : MemberSpec
spec = record {
  is_dat = false;
  crlf = false;
  tokens =
      record {
        golden = codes "96";
        local = codes "$PREFIX";
        placeholder = codes "<P>";
        match_mode = startswith;
        fields = some (0 ∷ []);
        max_len = none;
      }
      ∷ [];
  date_mask_fields = 1 ∷ [];
}

abbrev golden : Zip
golden = record { names = codes "a.csv" ∷ []; read = λ n. codes "\"96x\",\"2026/01/02\"\n" }

abbrev generated : Zip
generated = record { names = codes "a.csv" ∷ []; read = λ n. codes "\"101x\",\"2026/10/09\"\n" }

abbrev local_run : LocalRun
local_run = record { prefix = codes "101"; run_id = codes "7" }

same : main ascii local_run (some golden) (some generated) (some ((codes "a.csv", spec) ∷ [])) ≡ 0
unfolding main findings exit_code undeclared sorted_set compare_members compare_member text_eq
    parse_member parse_records scan step checked serialize join_lines record_line join_with quote
    doubled compare_parsed compare_records normalized golden_tokens local_tokens token_of
    local_literal apply_tokens sort_tokens insert_token apply_fields apply_field apply_token
    apply_mode has_prefix cut_to drop mask_dates mask_from mask_record mask_field field_at set_field
    is_fbdi_date is_fbdi_date_from is_digit serialize_member
same = refl

main-SameZips_example :
    (main ascii local_run (some golden) (some generated) (some ((codes "a.csv", spec) ∷ [])) ≡ 0)
    ↔ SameZips ascii local_run golden generated ((codes "a.csv", spec) ∷ [])
main-SameZips_example = main-SameZips ascii local_run golden generated ((codes "a.csv", spec) ∷ [])
