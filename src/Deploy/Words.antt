-- ===== src/Deploy/Words.antt =====
-- scripts/dmt_deploy.py: the regular expressions of the script splitter, on ASCII letters in either
-- case, and the code part of a line.
use data_migration_tool.Prelude.{
  ℕ, zero, suc, String, Bool, true, false, not, ◌&&◌, ◌||◌, Option, none, some, List, [], ◌∷◌,
  nat_beq, if◌then◌else◌, length, any,
}
use data_migration_tool.Prelude.Text.{
  Text, codes, text_eq, has_prefix, has_suffix, is_space, lstrip, rstrip, strip, upper,
}
use data_migration_tool.Regression.Rows.{is_word}
use data_migration_tool.Regression.Issue.{after, span}

-- \b behind a keyword
unfoldable pub at_boundary : Text → Bool
at_boundary [] = true
at_boundary (c ∷ s) = not (is_word c)

-- \s+
unfoldable pub after_spaces : Text → Option Text
after_spaces [] = none
after_spaces (c ∷ s) = if is_space c then some (lstrip s) else none

-- one of the keywords and a boundary
unfoldable pub is_keyword : List String → Text → Bool
unfolding at_boundary after
is_keyword [] t = false
is_keyword (k ∷ ks) t =
    let rest = is_keyword ks t in
    elim (after (codes k) t) [ none ↦ rest | some s ↦ at_boundary s || rest ]

-- the keyword and spaces, if they stand there
unfoldable pub skip_word : String → Text → Option Text
unfolding after after_spaces
skip_word k t = elim (after (codes k) t) [ none ↦ none | some s ↦ after_spaces s ]

abbrev pub or_text : Option Text → Text → Text
or_text none d = d
or_text (some t) d = t

-- (?:OR\s+REPLACE\s+)?
unfoldable pub skip_or_replace : Text → Text
unfolding skip_word
skip_or_replace t = elim (skip_word "OR" t) [
  | none ↦ t
  | some s ↦ or_text (skip_word "REPLACE" s) t
]

-- (?:(?:EDITIONABLE|NONEDITIONABLE)\s+)?
unfoldable pub skip_editionable : Text → Text
unfolding skip_word
skip_editionable t = or_text (skip_word "EDITIONABLE" t) (or_text (skip_word "NONEDITIONABLE" t) t)

-- _PLSQL_START_RE
unfoldable pub is_plsql_start : Text → Bool
is_plsql_start line =
    let t = upper (lstrip line) in
    elim (skip_word "CREATE" t) [
      | none ↦ is_keyword ("DECLARE" ∷ "BEGIN" ∷ []) t
      | some s ↦
          is_keyword ("PACKAGE" ∷ "PROCEDURE" ∷ "FUNCTION" ∷ "TRIGGER" ∷ "TYPE" ∷ "LIBRARY" ∷ [])
            (skip_editionable (skip_or_replace s))
    ]

abbrev pub sqlplus_commands : List String
sqlplus_commands =
    "REM" ∷ "REMARK" ∷ "SET" ∷ "PROMPT" ∷ "PRO" ∷ "SHOW" ∷ "SHO" ∷ "WHENEVER" ∷ "SPOOL" ∷ "SPO"
    ∷ "DEFINE" ∷ "DEF" ∷ "UNDEFINE" ∷ "UNDEF" ∷ "COLUMN" ∷ "COL" ∷ "TTITLE" ∷ "BTITLE" ∷ "CLEAR"
    ∷ "EXIT" ∷ "QUIT" ∷ []

-- _SQLPLUS_CMD_RE: the first word of the line
unfoldable pub is_sqlplus_command : Text → Bool
is_sqlplus_command line =
    let w = (span (λ c. not (is_space c)) (upper (lstrip line))).0 in
    any (λ k. text_eq w (codes k)) sqlplus_commands

-- _INCLUDE_RE
unfoldable pub is_include : Text → Bool
is_include line =
    let t = upper (lstrip line) in
    has_prefix (codes "@") t || elim (skip_word "START" t) [ none ↦ false | some s ↦ true ]

-- _SLASH_RE
unfoldable pub is_slash : Text → Bool
is_slash line = text_eq (strip line) (codes "/")

-- the text behind the first place where the mark stands, or nothing
unfoldable pub behind : Text → Text → Text
behind p [] = []
behind p (c ∷ s) = let rest = behind p s in elim (after p (c ∷ s)) [ none ↦ rest | some t ↦ t ]

-- one round of `_strip_leading_comments`
unfoldable pub strip_comment : Text → Text
unfolding behind
strip_comment t =
    let t2 = lstrip t in
    if has_prefix (codes "--") t2
    then behind (10 ∷ []) t2
    else if has_prefix (codes "/*") t2
    then behind (codes "*/") t2
    else t2

-- until nothing changes, on fuel
unfoldable pub strip_rounds : ℕ → Text → Text
strip_rounds zero t = t
strip_rounds (suc fuel) t =
    let rest = strip_rounds fuel (strip_comment t) in
    if text_eq (strip_comment t) t then t else rest

unfoldable pub strip_leading_comments : Text → Text
unfolding strip_rounds
strip_leading_comments t = strip_rounds (length t) t

-- `_sql_code`, with whether a quote is open
unfoldable pub code_part : Bool → Text → Text
code_part in_q [] = []
code_part in_q (c ∷ s) =
    let flipped = code_part (not in_q) s in
    let same = code_part in_q s in
    if nat_beq c b'\''
    then c ∷ flipped
    else if not in_q && has_prefix (codes "--") (c ∷ s)
    then []
    else c ∷ same

unfoldable pub sql_code : Text → Text
sql_code line = code_part false line

unfoldable pub ends_sql : Text → Bool
unfolding sql_code
ends_sql line = has_suffix (codes ";") (rstrip (sql_code line))
