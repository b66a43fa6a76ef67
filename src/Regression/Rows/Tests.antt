-- ===== src/Regression/Rows/Tests.antt =====
-- The keys of bad seeds, and a run with a good row, a bad one and an orphan.
use data_migration_tool.Prelude.{◌≡◌, refl, ◌↔◌, true, false, some, [], ◌∷◌, is_empty, All}
use data_migration_tool.Prelude.Text.{
  Text, codes, text_eq, has_prefix, lstrip, rstrip, strip, upper, is_space,
}
use data_migration_tool.Regression.Rows.{
  contains, digits_to_boundary, is_digit, is_word, is_bad_suffix, bad_key_regex, is_bad_key,
  to_bracket, error_category, is_bad_row, loaded, failed, expect_doc, Record, Expected, same_seq,
  lookup_expected, problem_of, is_bad,
}
use data_migration_tool.Regression.Rows.Counts.{
  record_failures, tally_all, tally, count_row, count_loaded, count_failed, has_id, problems,
  row_problem, sorted_items, insert_named, all_stats_failures, stats_failures, if_any,
}
use data_migration_tool.Regression.Rows.Clean.{Meets, record_failures-Meets}

bad_items : is_bad_key (some (codes "DMT-PLAIN-B6")) ≡ true
unfolding is_bad_key contains bad_key_regex is_bad_suffix digits_to_boundary is_digit is_word
    has_prefix upper
bad_items = refl

good_items : is_bad_key (some (codes "DMT-PLAIN-G6")) ≡ false
unfolding is_bad_key contains bad_key_regex is_bad_suffix digits_to_boundary is_digit is_word
    has_prefix upper
good_items = refl

not_a_word_end : is_bad_key (some (codes "DMT-B6X")) ≡ false
unfolding is_bad_key contains bad_key_regex is_bad_suffix digits_to_boundary is_digit is_word
    has_prefix upper
not_a_word_end = refl

orphan : is_bad_row (some (codes "Suppliers STG#7")) (codes " [Pre_Validation] no parent") ≡ true
unfolding is_bad_row is_bad_key contains bad_key_regex is_bad_suffix digits_to_boundary is_digit
    is_word has_prefix upper error_category to_bracket lstrip is_space strip rstrip text_eq
orphan = refl

abbrev good_row : Record
good_row = record {
  cemli = codes "SUP";
  sub = codes "Suppliers";
  key = some (codes "93401SUP-1");
  status = loaded;
  err_txt = [];
  stg_seq = some 1;
  doc_pos = 0;
  fusion_id = some (codes "300100");
}

abbrev doc_row : Record
doc_row = record good_row {
  status = failed;
  err_txt = codes "Rejected with document: x";
  stg_seq = some 2;
  doc_pos = 1;
}

abbrev listed : Expected
listed = ((codes "Suppliers", some 2), (codes "S-2", expect_doc)) ∷ []

nothing_to_report : is_empty (record_failures listed [] (good_row ∷ doc_row ∷ [])) ≡ true
unfolding record_failures tally_all tally count_row count_loaded count_failed has_id problems
    row_problem lookup_expected same_seq text_eq problem_of is_bad is_bad_row is_bad_key contains
    bad_key_regex is_bad_suffix digits_to_boundary is_digit is_word has_prefix upper error_category
    to_bracket lstrip sorted_items insert_named all_stats_failures stats_failures if_any
nothing_to_report = refl

record_failures-Meets_example :
    (is_empty (record_failures listed [] (good_row ∷ doc_row ∷ [])) ≡ true)
    ↔ (is_empty {A = Text} [] ≡ true) × All (Meets listed) (good_row ∷ doc_row ∷ [])
record_failures-Meets_example = record_failures-Meets listed [] (good_row ∷ doc_row ∷ [])
