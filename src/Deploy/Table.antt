-- ===== src/Deploy/Table.antt =====
-- scripts/dmt_deploy.py: `deploy_table`, a migration with its git-first check.
pub mod Once
use data_migration_tool.Prelude.{
  ℕ, zero, suc, ◌/◌, Bool, false, not, ◌&&◌, ◌||◌, Option, none, some, List, [], ◌∷◌, nat_beq,
  if◌then◌else◌, length, is_empty, all, keep,
}
use data_migration_tool.Prelude.Text.{
  Text, codes, has_prefix, has_suffix, is_space, lstrip, strip, upper, onto_first,
}
use data_migration_tool.Regression.Rows.{is_word}
use data_migration_tool.Regression.Issue.{after, span}
use data_migration_tool.Deploy.Words.{at_boundary, after_spaces}
use data_migration_tool.Deploy.Objects.{search_word, identifier}
use data_migration_tool.Deploy.Code.{Source, outside_repo, missing, contents}

-- \s*\n: behind the last line feed of the spaces that stand here
unfoldable pub after_break : Text → Option Text
unfolding is_space
after_break [] = none
after_break (c ∷ t) =
    let later = after_break t in
    let now : Option Text = (if nat_beq c 10 then some t else none) in
    if is_space c then elim later [ some r ↦ some r | none ↦ now ] else none

-- re.split(r';\s*\n|/\s*\n', text), on fuel
unfoldable pub split_breaks : ℕ → Text → List Text
unfolding after_break
split_breaks fuel [] = [] ∷ []
split_breaks zero (c ∷ t) = [] ∷ []
split_breaks (suc fuel) (c ∷ t) =
    let hit : Option Text = (if nat_beq c b';' || nat_beq c b'/' then after_break t else none) in
    elim hit [ some r ↦ [] ∷ split_breaks fuel r | none ↦ onto_first c (split_breaks fuel t) ]

abbrev pub is_statement : Text → Bool
is_statement s = not (is_empty (strip s)) && not (has_prefix (codes "--") (strip s))

-- the pieces that are run
unfoldable pub statements : Text → List Text
unfolding split_breaks
statements sql = keep is_statement (split_breaks (length sql) sql)

unfoldable pub drop_last : Text → Text
drop_last [] = []
drop_last (c ∷ []) = []
drop_last (c ∷ (d ∷ t)) = c ∷ drop_last (d ∷ t)

-- _strip
unfoldable pub strip_slash : Text → Text
unfolding drop_last
strip_slash ddl = let t = strip ddl in if has_suffix (codes "/") t then strip (drop_last t) else t

-- \(?\s*
abbrev skip_paren : Text → Text
skip_paren t = elim (after (codes "(") t) [ none ↦ t | some s ↦ lstrip s ]

-- ADD\s*\(?\s*"?(\w+)"?\s+\w: the column, and what stands behind the match
unfoldable pub add_column : Text → Option (Text × Text)
unfolding after identifier after_spaces is_word
add_column t = elim (after (codes "ADD") t) [
  | none ↦ none
  | some s ↦ elim (identifier (skip_paren (lstrip s))) [
    | none ↦ none
    | some (col, rest) ↦ elim (after_spaces rest) [
      | none ↦ none
      | some [] ↦ none
      | some (c ∷ u) ↦ if is_word c then some (col, u) else none
    ]
  ]
]

-- re.findall, on fuel
unfoldable pub added_columns : ℕ → Text → List Text
unfolding add_column
added_columns fuel [] = []
added_columns zero (c ∷ t) = []
added_columns (suc fuel) (c ∷ t) = elim (add_column (c ∷ t)) [
  | some (col, rest) ↦ col ∷ added_columns fuel rest
  | none ↦ added_columns fuel t
]

-- \bcol\b
unfoldable pub mentions : Text → Text → Bool
unfolding search_word after at_boundary
mentions create_sql col =
    search_word (λ t. elim (after col t) [ none ↦ false | some s ↦ at_boundary s ]) false create_sql

-- every column that the migration adds stands in the create-table script
unfoldable pub is_git_first : Text → Text → Bool
unfolding added_columns mentions
is_git_first create_sql mig_sql =
    all (mentions (upper create_sql)) (added_columns (length mig_sql) (upper mig_sql))

pub data Act : Type 0 where
  executed : Text → Act
  recorded : Text → Act
  committed : Act

abbrev pub History : Type 0
History = List Act

-- `failed` is a DatabaseError that nothing catches
pub data End : Type 0 where
  applied skipped refused failed : End

pub record World : Type 0 where
  pub source : Text → Source
  pub basename : Text → Text
  pub has_log : History → Bool
  pub log_count : History → Text → ℕ
  pub accepts : History → Text → Bool

module _ (w : World) where
  unfoldable pub apply : List Text → Text → History → End × History
  unfolding strip_slash
  apply [] name h = (applied, committed ∷ recorded name ∷ h)
  apply (s ∷ ss) name h =
      let rest = apply ss name (executed (strip_slash s) ∷ h) in
      if w.accepts h (strip_slash s) then rest else (failed, h)

  unfoldable pub migrate : Text → Text → Text → History → End × History
  unfolding is_git_first statements apply
  migrate name create_sql mig_sql h =
      if not (nat_beq (w.log_count h name) 0)
      then (skipped, h)
      else if not (is_git_first create_sql mig_sql)
      then (refused, h)
      else apply (statements mig_sql) name h

  unfoldable pub deploy_table : Text → Text → History → End × History
  unfolding migrate
  deploy_table create_path migration_path h =
      if not (w.has_log h) then (refused, h) else elim (w.source create_path) [
        | outside_repo ↦ (refused, h)
        | missing ↦ (refused, h)
        | contents create_sql ↦ elim (w.source migration_path) [
          | outside_repo ↦ (refused, h)
          | missing ↦ (refused, h)
          | contents mig_sql ↦ migrate (w.basename migration_path) create_sql mig_sql h
        ]
      ]
