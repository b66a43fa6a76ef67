-- ===== src/Deploy/Tests.antt =====
-- A package body whose file ends in a second block, a lone semicolon, and an include.
use data_migration_tool.Prelude.{
  ◌≡◌, refl, ◌⊎◌, inl, inr, Bool, true, false, ◌||◌, List, [], ◌∷◌, ◌++◌, is_empty,
}
use data_migration_tool.Prelude.Text.{
  Text, codes, text_eq, has_prefix, has_suffix, is_space, lstrip, rstrip, strip, upper, join_with,
}
use data_migration_tool.Regression.Rows.{contains, is_word, is_digit}
use data_migration_tool.Regression.Issue.{after, span}
use data_migration_tool.Deploy.Words.{
  at_boundary, after_spaces, is_keyword, skip_word, skip_or_replace, skip_editionable,
  is_plsql_start, is_sqlplus_command, is_include, is_slash, behind, strip_comment, strip_rounds,
  strip_leading_comments, code_part, sql_code, ends_sql,
}
use data_migration_tool.Deploy.Split.{
  Kind, plsql, sql, ScriptError, include_refused, pieces, drop_last_empty, splitlines, has_code,
  drop_semicolon, statement, flush, count, is_sql, open_statement, kind_of, between, inside, step,
  steps, finish, split_script, joined,
}
use data_migration_tool.Deploy.Unit.{OpensUnit, idle, steps-unit}

-- the script's answer, computed
split : Text → ScriptError ⊎ List (Kind × Text)
unfolding split_script splitlines pieces drop_last_empty steps step between inside open_statement
    kind_of is_sql flush statement has_code drop_semicolon finish count contains is_plsql_start
    is_sqlplus_command is_include is_slash skip_or_replace skip_editionable is_keyword skip_word
    at_boundary after_spaces after span is_word is_digit strip_leading_comments strip_rounds
    strip_comment behind sql_code code_part ends_sql strip lstrip rstrip is_space upper text_eq
    has_prefix has_suffix join_with
split t = split_script t

abbrev newline : Text
newline = 10 ∷ []

two_units :
    split (
      codes "create or replace package p as"
      ++ (newline
          ++ (codes "x number;"
              ++ (newline
                  ++ (codes "end;"
                      ++ (newline ++ (codes "/" ++ (newline ++ codes "begin null; end;"))))))))
    ≡ inr (
        (
          plsql,
          codes "create or replace package p as"
              ++ (newline ++ (codes "x number;" ++ (newline ++ codes "end;"))),
        )
        ∷ (plsql, codes "begin null; end;")
        ∷ [])
unfolding split
two_units = refl

lone_semicolon : split (codes ";") ≡ inr ((sql, []) ∷ [])
unfolding split
lone_semicolon = refl

no_include : split (codes "@other.sql") ≡ inl (include_refused 1 (codes "@other.sql"))
unfolding split
no_include = refl

abbrev first : Text
first = codes "BEGIN"

opens : Text → Bool × (Bool × (Bool × (Bool × (Bool × Bool))))
unfolding is_slash is_include is_sqlplus_command is_plsql_start skip_or_replace skip_editionable
    is_keyword skip_word at_boundary after_spaces after span is_word is_digit strip_leading_comments
    strip_rounds strip_comment behind strip lstrip rstrip is_space upper text_eq has_prefix
opens l = (
  is_slash l,
  (
    is_empty (strip l) || has_prefix (codes "--") (strip l),
    (
      is_include l,
      (
        is_sqlplus_command l,
        (
          is_empty (strip (strip_leading_comments l)),
          is_plsql_start (strip (strip_leading_comments l)),
        ),
      ),
    ),
  ),
)

first-OpensUnit : OpensUnit first
unfolding opens
first-OpensUnit = record {
  no_slash = refl;
  no_comment = refl;
  no_include = refl;
  no_command = refl;
  some_code = refl;
  begins_unit = refl;
}

slash_line : is_slash (codes "/ ") ≡ true
unfolding opens
slash_line = refl

body_line : is_slash (codes "null; end;") ≡ false
unfolding opens
body_line = refl

whole : has_code (first ∷ codes "null; end;" ∷ []) ≡ true
unfolding split
whole = refl

steps-unit_example :
    steps 1 (first ∷ codes "null; end;" ∷ codes "/ " ∷ []) (idle [] [])
    ≡ steps 4 [] (idle ((plsql, strip (joined (first ∷ codes "null; end;" ∷ []))) ∷ []) [])
steps-unit_example =
    steps-unit 1 first (codes "null; end;" ∷ []) (codes "/ ") [] [] [] first-OpensUnit
      (body_line, tt) slash_line whole
