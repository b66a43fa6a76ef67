-- ===== src/Deploy/Unit.antt =====
-- A PL/SQL unit in a script: from its first line to the slash, whatever semicolons it holds.
use data_migration_tool.Prelude.{
  ℕ, suc, ◌+◌, ◌≡◌, refl, sym, ap, ◌∙◌, inr, true, false, ◌||◌, none, some, List, [], ◌∷◌, ◌++◌,
  arith, length, is_empty, All,
}
use data_migration_tool.Prelude.Text.{Text, codes, has_prefix, strip}
use data_migration_tool.Deploy.Words.{
  is_plsql_start, is_sqlplus_command, is_include, is_slash, strip_leading_comments,
}
use data_migration_tool.Deploy.Split.{
  Kind, plsql, State, has_code, joined, flush, is_sql, statement, open_statement, kind_of, between,
  inside, step, steps,
}

-- a line that opens a PL/SQL unit
pub record OpensUnit (line : Text) : Type 0 where
  pub no_slash : is_slash line ≡ false
  pub no_comment : (is_empty (strip line) || has_prefix (codes "--") (strip line)) ≡ false
  pub no_include : is_include line ≡ false
  pub no_command : is_sqlplus_command line ≡ false
  pub some_code : is_empty (strip (strip_leading_comments line)) ≡ false
  pub begins_unit : is_plsql_start (strip (strip_leading_comments line)) ≡ true

-- between statements, with the comment lines kept so far
abbrev pub idle : List (Kind × Text) → List Text → State
idle acc buf = record { stmts = acc; buf = buf; kind = none; in_comment = false }

-- in a PL/SQL unit
abbrev pub in_unit : List (Kind × Text) → List Text → State
in_unit acc buf = record { stmts = acc; buf = buf; kind = some plsql; in_comment = false }

step-open :
    (n : ℕ) (line : Text) (acc : List (Kind × Text)) (buf : List Text)
    → OpensUnit line
    → step n line (idle acc buf) ≡ inr (in_unit acc (buf ++ line ∷ []))
unfolding step between open_statement kind_of is_sql
step-open n line acc buf o =
    simp (o.no_slash, o.no_comment, o.no_include, o.no_command, o.some_code, o.begins_unit) refl

step-inside :
    (n : ℕ) (line : Text) (acc : List (Kind × Text)) (buf : List Text)
    → is_slash line ≡ false
    → step n line (in_unit acc buf) ≡ inr (in_unit acc (buf ++ line ∷ []))
unfolding step inside is_sql
step-inside n line acc buf h = rw h refl

step-slash :
    (n : ℕ) (line : Text) (acc : List (Kind × Text)) (buf : List Text)
    → is_slash line ≡ true
    → step n line (in_unit acc buf) ≡ inr (flush plsql (in_unit acc buf))
unfolding step inside is_sql
step-slash n line acc buf h = rw h refl

flush-unit :
    (acc : List (Kind × Text)) (buf : List Text)
    → has_code buf ≡ true
    → flush plsql (in_unit acc buf) ≡ idle (acc ++ (plsql, strip (joined buf)) ∷ []) []
unfolding flush statement
flush-unit acc buf h = rw h refl

steps-step :
    (n : ℕ) (line : Text) (lines : List Text) (s t : State)
    → step n line s ≡ inr t
    → steps n (line ∷ lines) s ≡ steps (n + 1) lines t
unfolding steps
steps-step n line lines s t e = rw (e, steps) refl

append_nil : (k : List Text) → k ++ [] ≡ k
append_nil [] = refl
append_nil (x ∷ k) = ap (λ l. x ∷ l) (append_nil k)

append_one : (k : List Text) (l : Text) (body : List Text) → (k ++ l ∷ []) ++ body ≡ k ++ l ∷ body
append_one [] l body = refl
append_one (x ∷ k) l body = ap (λ m. x ∷ m) (append_one k l body)

-- the state behind the unit
abbrev behind_unit : List (Kind × Text) → List Text → State
behind_unit acc buf = idle (acc ++ (plsql, strip (joined buf)) ∷ []) []

steps-body :
    (body : List Text) (n : ℕ) (slash : Text) (rest : List Text) (acc : List (Kind × Text))
    (buf : List Text)
    → All (λ l. is_slash l ≡ false) body
    → is_slash slash ≡ true
    → has_code (buf ++ body) ≡ true
    → steps n (body ++ slash ∷ rest) (in_unit acc buf)
      ≡ steps (n + length body + 1) rest (behind_unit acc (buf ++ body))
steps-body [] n slash rest acc buf a h c =
    let whole = append_nil buf in
    let count : n + 1 ≡ n + 0 + 1 = omega arith in
    steps-step n slash rest (in_unit acc buf) (behind_unit acc buf)
      (step-slash n slash acc buf h ∙ ap inr (flush-unit acc buf (ap has_code (sym whole) ∙ c)))
    ∙ (λ j. steps (count j) rest (behind_unit acc (sym whole j)))
steps-body (l ∷ body) n slash rest acc buf a h c =
    let whole = append_one buf l body in
    let count : n + 1 + length body + 1 ≡ n + suc (length body) + 1 = omega arith in
    steps-step n l (body ++ slash ∷ rest) (in_unit acc buf) (in_unit acc (buf ++ l ∷ []))
      (step-inside n l acc buf a.0)
    ∙ steps-body body (n + 1) slash rest acc (buf ++ l ∷ []) a.1 h (ap has_code whole ∙ c)
    ∙ (λ j. steps (count j) rest (behind_unit acc (whole j)))

-- From its first line to the line that holds only a slash, a PL/SQL unit becomes one statement, with
-- the comments in front of it and with every semicolon, and the next line is again between statements.
pub steps-unit :
    (n : ℕ) (first : Text) (body : List Text) (slash : Text) (rest : List Text)
    (acc : List (Kind × Text)) (buf : List Text)
    → OpensUnit first
    → All (λ l. is_slash l ≡ false) body
    → is_slash slash ≡ true
    → has_code ((buf ++ first ∷ []) ++ body) ≡ true
    → steps n (first ∷ (body ++ slash ∷ rest)) (idle acc buf)
      ≡ steps
          (n + 1 + length body + 1)
          rest
          (idle (acc ++ (plsql, strip (joined ((buf ++ first ∷ []) ++ body))) ∷ []) [])
steps-unit n first body slash rest acc buf o a h c =
    steps-step n first (body ++ slash ∷ rest) (idle acc buf) (in_unit acc (buf ++ first ∷ []))
      (step-open n first acc buf o)
    ∙ steps-body body (n + 1) slash rest acc (buf ++ first ∷ []) a h c
