-- ===== src/Promote/Seeds.antt =====
-- scripts/ci_promote.py: `seed_order`. Paths are relative to db/; `install` is the text of install.sql.
pub mod Complete
use data_migration_tool.Prelude.{
  ◌+◌, ◌/◌, Bool, not, Option, none, some, List, [], ◌∷◌, ◌++◌, map, if◌then◌else◌, any, keep,
}
use data_migration_tool.Prelude.Text.{
  Text, codes, text_eq, text_eq_refl, has_prefix, is_space, split_on,
}
use data_migration_tool.Regression.Issue.{after}

-- the longest start without white space that ends in .sql, behind at least one character
unfoldable pub sql_name : Text → Option Text
sql_name [] = none
sql_name (c ∷ s) =
    let rest = sql_name s in
    if is_space c then none else elim rest [
      | some t ↦ some (c ∷ t)
      | none ↦ if has_prefix (codes ".sql") s then some (c ∷ codes ".sql") else none
    ]

-- ^@@(seed/[^\s]+\.sql) on one line
unfoldable pub listed_seed : Text → Option Text
listed_seed line = elim (after (codes "@@seed/") line) [
  | none ↦ none
  | some s ↦ elim (sql_name s) [ none ↦ none | some t ↦ some (codes "seed/" ++ t) ]
]

unfoldable pub listed_seeds : List Text → List Text
listed_seeds [] = []
listed_seeds (line ∷ lines) =
    let rest = listed_seeds lines in elim (listed_seed line) [ none ↦ rest | some t ↦ t ∷ rest ]

abbrev pub is_in : Text → List Text → Bool
is_in t l = any (λ u. text_eq u t) l

-- those listed that are present, then those present that are not listed
unfoldable pub merge_order : List Text → List Text → List Text
merge_order listed present =
    let ordered = keep (λ s. is_in s present) listed in
    ordered ++ keep (λ s. not (is_in s ordered)) present

unfoldable pub seed_order : Text → List Text → List Text
seed_order install present =
    map (λ s. codes "db/" ++ s) (merge_order (listed_seeds (split_on 10 install)) present)
