-- ===== src/Gate/Paths/Code.antt =====
-- What counts xs code, and that the code tree hash sees nothing else.
use data_migration_tool.Prelude.{
  String, ◌≡◌, ◌↔◌, ◌⊎◌, inl, inr, true, false, some, List, [], ◌∷◌, ◌++◌, arith, Bool-cases,
  is_empty, All,
}
use mathlib.Core.List.{append_assoc}
use data_migration_tool.Prelude.Text.{
  Text, codes, has_prefix, has_suffix, lower, has_prefix_sound, has_prefix-append, has_suffix_sound,
  has_suffix-append, split_on, z_output, split_on-z_output, Lacks,
}
use data_migration_tool.Gate.Paths.{normalize, is_code_path, split_tab, code_rows, code_tree}

-- The owner's list of what is not code, for a path with forward slashes and none in front.
pub data IsNonCode (p : Text) : Type 0 where
  docs : (rest : Text) → p ≡ codes "docs/" ++ rest → IsNonCode p
  github : (rest : Text) → p ≡ codes ".github/" ++ rest → IsNonCode p
  claude : (rest : Text) → p ≡ codes ".claude/" ++ rest → IsNonCode p
  markdown : (stem : Text) → lower p ≡ stem ++ codes ".md" → IsNonCode p

-- the same, by the tests of the code
abbrev Tests : Text → Type 0
Tests p =
    (has_prefix (codes "docs/") p ≡ true)
    ⊎ (has_prefix (codes ".github/") p ≡ true)
    ⊎ (has_prefix (codes ".claude/") p ≡ true)
    ⊎ (has_suffix (codes ".md") (lower p) ≡ true)

Tests-IsNonCode : (p : Text) → Tests p → IsNonCode p
Tests-IsNonCode p (inl a) = let (rest, e) = has_prefix_sound (codes "docs/") p a in docs rest e
Tests-IsNonCode p (inr (inl a)) =
    let (rest, e) = has_prefix_sound (codes ".github/") p a in github rest e
Tests-IsNonCode p (inr (inr (inl a))) =
    let (rest, e) = has_prefix_sound (codes ".claude/") p a in claude rest e
Tests-IsNonCode p (inr (inr (inr a))) =
    let (stem, e) = has_suffix_sound (codes ".md") (lower p) a in markdown stem e

IsNonCode-Tests : (p : Text) → IsNonCode p → Tests p
IsNonCode-Tests p (docs rest e) = inl (rw e (has_prefix-append (codes "docs/") rest))
IsNonCode-Tests p (github rest e) = inr (inl (rw e (has_prefix-append (codes ".github/") rest)))
IsNonCode-Tests p (claude rest e) =
    inr (inr (inl (rw e (has_prefix-append (codes ".claude/") rest))))
IsNonCode-Tests p (markdown stem e) = inr (inr (inr (rw e (has_suffix-append (codes ".md") stem))))

is_code_path-Tests : (path : Text) → is_code_path path ≡ false → Tests (normalize path)
unfolding is_code_path
is_code_path-Tests path h = ground arith

Tests-is_code_path : (path : Text) → Tests (normalize path) → is_code_path path ≡ false
unfolding is_code_path
Tests-is_code_path path h = ground arith

-- A path is left out of the code exactly when, read with forward slashes and without leading ones,
-- it lies under docs/, .github/ or .claude/ or ends in .md in any case.
pub is_code_path-IsNonCode :
    (path : Text) → (is_code_path path ≡ false) ↔ IsNonCode (normalize path)
is_code_path-IsNonCode path = (
  (λ h. Tests-IsNonCode (normalize path) (is_code_path-Tests path h)),
  (λ h. Tests-is_code_path path (IsNonCode-Tests (normalize path) h)),
)

-- A record of `git ls-tree` for a path that is not code.
pub record NonCodeRecord (r : Text) : Type 0 where
  pub meta : Text
  pub path : Text
  pub split : split_tab r ≡ some (meta, path)
  pub non_code : IsNonCode (normalize path)

skip_record : (r : Text) (rs : List Text) → NonCodeRecord r → code_rows (r ∷ rs) ≡ code_rows rs
unfolding code_rows
skip_record r rs n =
    let e : is_code_path n.path ≡ false = (is_code_path-IsNonCode n.path).1 n.non_code in
    elim (Bool-cases (is_empty r)) [ inl a ↦ rw a | inr a ↦ rw (a, n.split, e) ]

cong_record :
    (r : Text) (xs ys : List Text)
    → code_rows xs ≡ code_rows ys
    → code_rows (r ∷ xs) ≡ code_rows (r ∷ ys)
unfolding code_rows
cong_record r xs ys h = rw h

skip_records :
    (xs : List Text) (r : Text) (ys : List Text)
    → NonCodeRecord r
    → code_rows (xs ++ r ∷ ys) ≡ code_rows (xs ++ ys)
skip_records [] r ys n = skip_record r ys n
skip_records (a ∷ xs) r ys n = cong_record a (xs ++ r ∷ ys) (xs ++ ys) (skip_records xs r ys n)

All-snoc_mid :
    (xs : List Text) (r : Text) (ys : List Text)
    → All (Lacks 0) (xs ++ r ∷ ys)
    → All (Lacks 0) (xs ++ ys)
All-snoc_mid [] r ys h = h.1
All-snoc_mid (a ∷ xs) r ys h = (h.0, All-snoc_mid xs r ys h.1)

-- A tracked file that is not code, wherever it stands in the listing of the commit, does not
-- change the code tree hash, whatever the hash function.
pub code_tree_ignores_non_code :
    (sha256 : Text → String) (xs : List Text) (r : Text) (ys : List Text)
    → All (Lacks 0) (xs ++ r ∷ ys)
    → NonCodeRecord r
    → code_tree sha256 (z_output (xs ++ r ∷ ys)) ≡ code_tree sha256 (z_output (xs ++ ys))
code_tree_ignores_non_code sha256 xs r ys h n =
    let same : code_rows (split_on 0 (z_output (xs ++ r ∷ ys)))
        ≡ code_rows (split_on 0 (z_output (xs ++ ys))) =
      rw
        (
          split_on-z_output (xs ++ r ∷ ys) h,
          split_on-z_output (xs ++ ys) (All-snoc_mid xs r ys h),
          append_assoc,
          append_assoc,
        )
        (skip_records xs r (ys ++ [] ∷ []) n) in
    unfold code_tree in rw same
