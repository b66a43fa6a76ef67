-- ===== src/Deploy/Split.antt =====
-- scripts/dmt_deploy.py: `split_script`, line by line with its state.
use data_migration_tool.Prelude.{
  ℕ, ◌+◌, ◌⊎◌, inl, inr, Bool, true, false, not, ◌&&◌, ◌||◌, Option, none, some, List, [], ◌∷◌,
  ◌++◌, ltb, leb, nat_beq, if◌then◌else◌, take, is_empty,
}
use data_migration_tool.Prelude.Text.{Text, codes, has_prefix, rstrip, strip, join_with}
use mathlib.Core.List.{reverse}
use data_migration_tool.Regression.Rows.{contains}
use data_migration_tool.Deploy.Words.{
  is_plsql_start, is_sqlplus_command, is_include, is_slash, strip_leading_comments, sql_code,
  ends_sql,
}

pub data Kind : Type 0 where
  plsql sql : Kind

-- str.splitlines
abbrev pub is_line_break : ℕ → Bool
is_line_break c =
    (leb 10 c && leb c 13)
    || ((leb 28 c && leb c 30) || (nat_beq c 133 || (nat_beq c 8232 || nat_beq c 8233)))

-- a character in front of the first line
abbrev pub onto_line : ℕ → List Text → List Text
onto_line c [] = (c ∷ []) ∷ []
onto_line c (l ∷ ls) = (c ∷ l) ∷ ls

abbrev pub is_newline_first : Text → Bool
is_newline_first [] = false
is_newline_first (c ∷ s) = nat_beq c 10

-- the pieces between the breaks; a carriage return and a newline are one break
unfoldable pub pieces : Text → List Text
pieces [] = [] ∷ []
pieces (c ∷ s) =
    let rest = pieces s in
    if is_line_break c
    then (if nat_beq c 13 && is_newline_first s then rest else [] ∷ rest)
    else onto_line c rest

-- a break at the end starts no line
unfoldable pub drop_last_empty : List Text → List Text
drop_last_empty [] = []
drop_last_empty (l ∷ []) = if is_empty l then [] else l ∷ []
drop_last_empty (l ∷ (k ∷ ls)) = l ∷ drop_last_empty (k ∷ ls)

unfoldable pub splitlines : Text → List Text
splitlines t = drop_last_empty (pieces t)

pub data ScriptError : Type 0 where
  include_refused : ℕ → Text → ScriptError
  not_terminated : Text → ScriptError

pub record State : Type 0 where
  pub stmts : List (Kind × Text)
  pub buf : List Text
  pub kind : Option Kind
  pub in_comment : Bool

-- '\n'.join(lines)
abbrev pub joined : List Text → Text
joined ls = join_with 10 ls

unfoldable pub has_code : List Text → Bool
has_code ls = not (is_empty (strip (strip_leading_comments (joined ls))))

-- buf[-1] without the semicolon and the comment behind it
unfoldable pub drop_semicolon : List Text → List Text
drop_semicolon [] = []
drop_semicolon (l ∷ []) =
    (if ends_sql l
      then (elim (reverse (rstrip (sql_code l))) [ [] ↦ [] | c ∷ t ↦ reverse t ])
      else l)
    ∷ []
drop_semicolon (l ∷ (k ∷ ls)) = l ∷ drop_semicolon (k ∷ ls)

unfoldable pub statement : Kind → List Text → Kind × Text
statement plsql ls = (plsql, strip (joined ls))
statement sql ls = (sql, strip (joined (drop_semicolon ls)))

unfoldable pub flush : Kind → State → State
flush k s = record {
  stmts = if has_code s.buf then s.stmts ++ statement k s.buf ∷ [] else s.stmts;
  buf = [];
  kind = none;
  in_comment = s.in_comment;
}

abbrev pub push : Text → State → State
push line s = record s { buf = s.buf ++ line ∷ [] }

-- text.count(mark), for two different characters
unfoldable pub count : Text → Text → ℕ
count p [] = 0
count p (c ∷ s) = let rest = count p s in if has_prefix p (c ∷ s) then rest + 1 else rest

unfoldable pub is_sql : Kind → Bool
is_sql sql = true
is_sql plsql = false

-- the first code line of a statement
unfoldable pub open_statement : Kind → Text → State → State
unfolding flush is_sql
open_statement k line s =
    let t = push line (record s { kind = some k }) in
    if is_sql k && ends_sql line then flush k t else t

unfoldable pub kind_of : Text → Kind
kind_of code = if is_plsql_start code then plsql else sql

-- a line between statements
unfoldable pub between : ℕ → Text → State → ScriptError ⊎ State
unfolding open_statement
between n line s =
    let code = strip (strip_leading_comments line) in
    if is_slash line
    then inr (record s { buf = [] })
    else if is_empty (strip line) || has_prefix (codes "--") (strip line)
    then inr (if is_empty s.buf then s else push line s)
    else if is_include line
    then inl (include_refused n (strip line))
    else if is_sqlplus_command line
    then inr s
    else if is_empty code
    then inr (record (push line s) {
      in_comment = ltb (count (codes "*/") line) (count (codes "/*") line);
    })
    else inr (open_statement (kind_of code) line s)

-- a line inside a statement
unfoldable pub inside : Kind → Text → State → State
unfolding flush is_sql
inside k line s =
    if is_slash line
    then flush k s
    else if is_sql k && ends_sql line
    then flush k (push line s)
    else push line s

-- one round of the loop, on the line of this number
unfoldable pub step : ℕ → Text → State → ScriptError ⊎ State
step n line s =
    if s.in_comment
    then inr (record (push line s) { in_comment = not (contains (codes "*/") line) })
    else elim s.kind [ none ↦ between n line s | some k ↦ inr (inside k line s) ]

unfoldable pub steps : ℕ → List Text → State → ScriptError ⊎ State
steps n [] s = inr s
steps n (line ∷ lines) s = elim (step n line s) [ inl e ↦ inl e | inr t ↦ steps (n + 1) lines t ]

-- the end of the file: a unit that is still open is run, a statement is not
unfoldable pub finish : State → ScriptError ⊎ List (Kind × Text)
unfolding flush
finish s =
    if has_code s.buf
    then (elim s.kind [
      | some k ↦
          if is_sql k
          then inl (not_terminated (take 80 (strip (strip_leading_comments (joined s.buf)))))
          else inr (flush k s).stmts
      | none ↦ inl (not_terminated (take 80 (strip (strip_leading_comments (joined s.buf)))))
    ])
    else inr s.stmts

abbrev pub start : State
start = record { stmts = []; buf = []; kind = none; in_comment = false }

unfoldable pub split_script : Text → ScriptError ⊎ List (Kind × Text)
split_script text = elim (steps 1 (splitlines text) start) [ inl e ↦ inl e | inr s ↦ finish s ]
