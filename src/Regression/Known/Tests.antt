-- ===== src/Regression/Known/Tests.antt =====
-- Items with and without a stable key, and a run whose one review item is known.
use data_migration_tool.Prelude.{◌≡◌, refl, sym, ◌↔◌, none, some, List, [], ◌∷◌, nat_beq}
use data_migration_tool.Prelude.Text.{codes, text_eq, has_prefix, is_space}
use data_migration_tool.Gate.Evidence.{text, regression_verdict_passes, decimal, decimal_onto}
use data_migration_tool.Regression.Issue.{
  issue_key, first_match, pattern_of, after, span, until_when, word, is_digit_code, is_caps,
  ends_word, is_rest_status, last_line, row_key, drop, rest_verify, non_terminal, strip_prefix,
}
use data_migration_tool.Regression.Known.{
  fail, review, Entry, Result, conclude, classify_issues, item_matches, matches_from, entry_matches,
  is_same, agrees, is_regressed, verdict_of, exit_code_of,
}
use data_migration_tool.Regression.Known.Accepted.{AllKnown, conclude-AllKnown}
use data_migration_tool.Regression.Known.Verdict.{conclude-verdict}

key_of_row :
    issue_key
      (codes "row in non-terminal status UNACCOUNTED: Asset Books / 93401A / 7")
      (some (codes "93401"))
    ≡ some (record {
      category = codes "NON_TERMINAL_ROW";
      object = none;
      sub = some (codes "Asset Books");
      key = some (codes "A / 7");
    })
unfolding issue_key first_match pattern_of after non_terminal span is_space until_when row_key
    last_line drop strip_prefix has_prefix
key_of_row = refl

key_of_rest :
    issue_key (codes "REST verify Items/Item: Class: NOT_FOUND (x)") none
    ≡ some (record {
      category = codes "REST_VERIFY";
      object = some (codes "Items");
      sub = some (codes "Item: Class");
      key = none;
    })
unfolding issue_key first_match pattern_of after rest_verify span is_rest_status is_caps ends_word
    is_digit_code until_when strip_prefix
key_of_rest = refl

no_key : issue_key (codes "baseline regression vs run 7: Items: good LOADED 3->1") none ≡ none
unfolding issue_key first_match pattern_of after
no_key = refl

abbrev entries : List Entry
entries =
    record {
      kind = none;
      category = some (codes "ZERO_RECORDS");
      object = some (codes "Grants");
      sub = none;
      key = none;
    }
    ∷ []

abbrev result : Result
result = record {
  failures = [];
  review = codes "DONE with zero records: Grants (no staged regression data?)" ∷ [];
  prefix = some (codes "93402");
  baseline_regressions = [];
  objects = codes "Grants" ∷ [];
  record_subs = [];
}

known_result : (conclude entries result).verdict ≡ codes "PASS (no new failures; 1 known)"
unfolding conclude classify_issues item_matches matches_from entry_matches is_same agrees
    is_regressed verdict_of exit_code_of text_eq issue_key first_match pattern_of after word span
    is_space strip_prefix decimal decimal_onto
known_result = refl

unlisted_is_new : (conclude [] result).exit_code ≡ 2
unfolding conclude classify_issues item_matches matches_from is_regressed exit_code_of issue_key
    first_match pattern_of after word span is_space strip_prefix
unlisted_is_new = refl

conclude-AllKnown_example :
    ((conclude entries result).exit_code ≡ 0)
    ↔ AllKnown fail entries result result.failures × AllKnown review entries result result.review
conclude-AllKnown_example = conclude-AllKnown entries result

conclude-verdict_example :
    regression_verdict_passes (text "PASS (no new failures; 1 known)")
    ≡ nat_beq (conclude entries result).exit_code 0
conclude-verdict_example =
    conclude-verdict entries result "PASS (no new failures; 1 known)" (sym known_result)
