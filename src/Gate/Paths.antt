-- ===== src/Gate/Paths.antt =====
-- scripts/promotion_gate.py: which paths are code, the code tree hash and the code identity. What
-- git prints is an argument, and so is the hash function.
mod Tests
pub mod Code
pub mod Status
use data_migration_tool.Prelude.{
  ℕ, zero, suc, ◌+◌, ◌/◌, String, Bool, true, false, not, ◌&&◌, ◌||◌, Option, none, some, List, [],
  ◌∷◌, ◌++◌, map, ltb, nat_beq, if◌then◌else◌, take, is_empty, any, keep,
}
use data_migration_tool.Prelude.Text.{
  Text, codes, has_prefix, has_suffix, lower, replace_code, split_on, join_with, is_space,
}

-- NON_CODE_DIRS and NON_CODE_SUFFIXES
abbrev pub non_code_dirs : List Text
non_code_dirs = codes "docs/" ∷ codes ".github/" ∷ codes ".claude/" ∷ []

abbrev pub non_code_suffixes : List Text
non_code_suffixes = codes ".md" ∷ []

-- s.lstrip("/")
unfoldable pub lstrip_slash : Text → Text
lstrip_slash [] = []
lstrip_slash (c ∷ s) = let rest = lstrip_slash s in if nat_beq c b'/' then rest else c ∷ s

unfoldable pub normalize : Text → Text
normalize path = lstrip_slash (replace_code b'\\' b'/' path)

unfoldable pub is_code_path : Text → Bool
is_code_path path =
    let p = normalize path in
    if any (λ d. has_prefix d p) non_code_dirs
    then false
    else if any (λ s. has_suffix s (lower p)) non_code_suffixes
    then false
    else true

-- rec.split("\t", 1), where there is a tab
unfoldable pub split_tab : Text → Option (Text × Text)
split_tab [] = none
split_tab (c ∷ s) =
    let rest = split_tab s in
    if nat_beq c 9
    then some ([], s)
    else elim rest [ none ↦ none | some (meta, path) ↦ some (c ∷ meta, path) ]

-- str.split() on whitespace: the words, given the word being read
unfoldable pub words_from : Text → Text → List Text
words_from word [] = if is_empty word then [] else word ∷ []
words_from word (c ∷ s) =
    let next = words_from [] s in
    let more = words_from (word ++ c ∷ []) s in
    if is_space c then (if is_empty word then next else word ∷ next) else more

-- One row of the code tree: the path, and `mode sha path`.
pub record Row : Type 0 where
  pub path : Text
  pub line : Text

-- what a record of `git ls-tree -r -z` adds to the rows; `none` where the code raises
unfoldable pub row_of : Text → List Text → Option Row
row_of path (mode ∷ (kind ∷ (sha ∷ []))) =
    some (record { path = path; line = mode ++ b' ' ∷ sha ++ b' ' ∷ path })
row_of path _ = none

abbrev pub cons_row : Option Row → Option (List Row) → Option (List Row)
cons_row none rows = none
cons_row (some r) none = none
cons_row (some r) (some rs) = some (r ∷ rs)

abbrev pub add_record : Option (Text × Text) → Option (List Row) → Option (List Row)
add_record none rest = none
add_record (some (meta, path)) rest =
    if not (is_code_path path) then rest else cons_row (row_of path (words_from [] meta)) rest

unfoldable pub code_rows : List Text → Option (List Row)
code_rows [] = some []
code_rows (r ∷ rs) =
    let rest = code_rows rs in if is_empty r then rest else add_record (split_tab r) rest

-- the order of Python's `str`, by code points
unfoldable pub text_le : Text → Text → Bool
text_le [] t = true
text_le (x ∷ s) [] = false
text_le (x ∷ s) (y ∷ t) = ltb x y || (nat_beq x y && text_le s t)

-- the order of the tuples (path, line)
unfoldable pub row_le : Row → Row → Bool
row_le a b =
    if text_le a.path b.path
    then (if text_le b.path a.path then text_le a.line b.line else true)
    else false

unfoldable pub insert_row : Row → List Row → List Row
insert_row r [] = r ∷ []
insert_row r (q ∷ qs) = let rest = insert_row r qs in if row_le r q then r ∷ q ∷ qs else q ∷ rest

unfoldable pub sort_rows : List Row → List Row
unfolding insert_row row_le text_le
sort_rows [] = []
sort_rows (r ∷ rs) = insert_row r (sort_rows rs)

module _ (sha256 : Text → String) where
  abbrev hash_rows : Option (List Row) → Option String
  hash_rows none = none
  hash_rows (some rows) = some (sha256 (join_with 10 (map (λ r. r.line) (sort_rows rows))))

  unfoldable pub code_tree : Text → Option String
  unfolding code_rows row_of split_tab words_from sort_rows
  code_tree output = hash_rows (code_rows (split_on 0 output))

-- _status_paths: (status, path) of every record of `git status --porcelain -z`
abbrev pub is_moved : Text → Bool
is_moved code = any (λ c. nat_beq c b'R' || nat_beq c b'C') code

abbrev pub drop : ℕ → Text → Text
drop zero s = s
drop (suc n) [] = []
drop (suc n) (c ∷ s) = drop n s

unfoldable pub status_paths : List Text → List (Text × Text)
status_paths [] = []
status_paths (r ∷ []) = if is_empty r then [] else (take 2 r, drop 3 r) ∷ []
status_paths (r ∷ (q ∷ rest)) =
    let next = status_paths (q ∷ rest) in
    let after = status_paths rest in
    if is_empty r
    then next
    else if is_moved (take 2 r)
    then (take 2 r, drop 3 r) ∷ (if is_empty q then after else (take 2 r, q) ∷ after)
    else (take 2 r, drop 3 r) ∷ next

pub record Identity : Type 0 where
  pub commit : String
  pub tree : String
  pub code_tree : Option String
  pub dirty : Bool
  pub dirty_files : List Text

-- the list `changes` of `code_identity`
unfoldable pub code_changes : Text → List Text
unfolding status_paths
code_changes status =
    map (λ c. c.0 ++ b' ' ∷ c.1) (keep (λ c. is_code_path c.1) (status_paths (split_on 0 status)))

-- What git prints for HEAD.
pub record Git : Type 0 where
  pub commit : String
  pub tree : String
  pub ls_tree : Text
  pub status : Text

-- `none` where `code_tree` raises
unfoldable pub code_identity : (Text → String) → Git → Option Identity
unfolding code_changes
code_identity sha256 g =
    let changes = code_changes g.status in
    elim (code_tree sha256 g.ls_tree) [
      | none ↦ none
      | some hash ↦ some (record {
        commit = g.commit;
        tree = g.tree;
        code_tree = some hash;
        dirty = not (is_empty changes);
        dirty_files = take 20 changes;
      })
    ]
