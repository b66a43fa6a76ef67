-- ===== src/GitSync/Normalize.antt =====
-- scripts/dmt_db_git_sync.py: `normalize`. The expressions ignore case and the result is put in upper
-- case; here the text is in upper case from the start.
use data_migration_tool.Prelude.{
  ℕ, zero, suc, String, Bool, true, false, not, ◌||◌, Option, none, some, List, [], ◌∷◌, nat_beq,
  if◌then◌else◌, length, keep,
}
use data_migration_tool.Prelude.Text.{
  Text, codes, has_prefix, has_suffix, is_space, lstrip, strip, upper, join_with,
}
use data_migration_tool.Regression.Rows.{contains, is_word}
use data_migration_tool.Regression.Issue.{after}
use data_migration_tool.Deploy.Words.{at_boundary, skip_word, skip_editionable}
use data_migration_tool.Deploy.Split.{splitlines}
use data_migration_tool.Deploy.Table.{drop_last}
use data_migration_tool.GitSync.{ObjectType, a_view, a_package}

-- a comment line is dropped unless it names CREATE
unfoldable pub keeps_line : Text → Bool
unfolding has_prefix lstrip contains upper
keeps_line l = not (has_prefix (codes "--") (lstrip l)) || contains (codes "CREATE") (upper l)

-- CREATE\s+OR\s+REPLACE\s+(?:EDITIONABLE\s+|NONEDITIONABLE\s+)?, in upper case
unfoldable pub skip_create : Text → Option Text
unfolding skip_word skip_editionable
skip_create t = elim (skip_word "CREATE" t) [
  | none ↦ none
  | some s ↦ elim (skip_word "OR" s) [
    | none ↦ none
    | some u ↦ elim (skip_word "REPLACE" u) [ none ↦ none | some v ↦ some (skip_editionable v) ]
  ]
]

-- each of them becomes a space, on fuel; the flag says that a word character stands in front
unfoldable pub drop_create : ℕ → Bool → Text → Text
unfolding skip_create is_word
drop_create fuel in_word [] = []
drop_create zero in_word (c ∷ t) = c ∷ t
drop_create (suc fuel) in_word (c ∷ t) =
    let hit : Option Text = (if in_word then none else skip_create (c ∷ t)) in
    elim hit [
      | some rest ↦ b' ' ∷ drop_create fuel false rest
      | none ↦ c ∷ drop_create fuel (is_word c) t
    ]

-- behind the first AS
unfoldable pub behind_as : Bool → Text → Option Text
unfolding after at_boundary is_word
behind_as in_word [] = none
behind_as in_word (c ∷ t) =
    let later = behind_as (is_word c) t in
    if in_word then later else elim (after (codes "AS") (c ∷ t)) [
      | none ↦ later
      | some s ↦ if at_boundary s then some s else later
    ]

-- \bVIEW\b.*?\bAS\b: the text behind it, or all of the text
unfoldable pub view_body : Bool → Text → Option Text
unfolding after at_boundary behind_as is_word
view_body in_word [] = none
view_body in_word (c ∷ t) =
    let later = view_body (is_word c) t in
    if in_word then later else elim (after (codes "VIEW") (c ∷ t)) [
      | none ↦ later
      | some s ↦ if at_boundary s then behind_as true s else later
    ]

-- \s+ becomes one space; the flag says that spaces stand in front
unfoldable pub fold_spaces : Bool → Text → Text
unfolding is_space
fold_spaces after_space [] = []
fold_spaces after_space (c ∷ t) =
    let rest = fold_spaces (is_space c) t in
    if is_space c then (if after_space then rest else b' ' ∷ rest) else c ∷ rest

unfoldable pub drop_mark : String → Text → Text
unfolding has_suffix drop_last
drop_mark mark t = if has_suffix (codes mark) t then drop_last t else t

abbrev or_all : Option Text → Text → Text
or_all none t = t
or_all (some s) t = s

abbrev pub body_of : ObjectType → Text → Text
body_of a_view s = or_all (view_body false s) s
body_of a_package s = s

unfoldable pub normalize_lines : ObjectType → List Text → Text
unfolding keeps_line drop_create view_body fold_spaces drop_mark strip upper join_with
normalize_lines otype lines =
    let s = keep (λ c. not (nat_beq c b'"')) (upper (join_with b'\n' (keep keeps_line lines))) in
    let t = drop_mark "/" (strip (drop_create (length s) false s)) in
    strip (drop_mark ";" (strip (fold_spaces false (body_of otype t))))

unfoldable pub normalize : ObjectType → Text → Text
unfolding normalize_lines splitlines
normalize otype sql = normalize_lines otype (splitlines sql)

-- reading a text file: every kind of line end becomes a line feed
unfoldable pub read_text : Text → Text
read_text [] = []
read_text (c ∷ []) = (if nat_beq c b'\r' then b'\n' else c) ∷ []
read_text (c ∷ (d ∷ t)) =
    let rest = read_text (d ∷ t) in
    if nat_beq c b'\r' then (if nat_beq d b'\n' then rest else b'\n' ∷ rest) else c ∷ rest
