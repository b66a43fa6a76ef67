-- ===== src/Golden/Tokens.antt =====
-- `apply_tokens` of test/golden/compare_fbdi.py: the run-scoped tokens.
pub mod Truncated
use mathlib.Core.List.{append_assoc}
use data_migration_tool.Prelude.{
  ℕ, zero, suc, ◌+◌, ◌-◌, Bool, true, false, not, ◌&&◌, ◌||◌, Option, none, some, List, [], ◌∷◌,
  ◌++◌, map, leb, nat_beq, if◌then◌else◌, length, take, is_empty, any, all,
}
use data_migration_tool.Prelude.Text.{Text, codes, text_eq, has_prefix}
use data_migration_tool.Regression.Rows.{contains, is_digit}
use data_migration_tool.Golden.Csv.{Records}

-- any other match mode of the map is `substring`
pub data Mode : Type 0 where
  whole_field startswith prefix_digits digits ref_id substring : Mode

pub record Token : Type 0 where
  pub literal : Text
  pub placeholder : Text
  pub mode : Mode
  pub fields : Option (List ℕ)
  pub max_len : Option ℕ
  pub local_len : ℕ

-- s[n:]
unfoldable pub drop : ℕ → Text → Text
drop zero s = s
drop (suc n) [] = []
drop (suc n) (c ∷ s) = drop n s

-- field.replace(literal, placeholder) for a literal that is not empty, with so many characters of an
-- occurrence still to be passed over
unfoldable pub replace_from : Text → Text → ℕ → Text → Text
unfolding has_prefix
replace_from literal placeholder k [] = []
replace_from literal placeholder (suc k) (c ∷ s) = replace_from literal placeholder k s
replace_from literal placeholder zero (c ∷ s) =
    let hit = has_prefix literal (c ∷ s) in
    let rest = replace_from literal placeholder (if hit then length literal - 1 else 0) s in
    if hit then placeholder ++ rest else c ∷ rest

-- str.isdigit on ASCII
unfoldable pub is_digits : Text → Bool
unfolding is_digit
is_digits s = not (is_empty s) && all is_digit s

-- \d*
unfoldable pub skip_digits : Text → Text
unfolding is_digit
skip_digits [] = []
skip_digits (c ∷ s) = let rest = skip_digits s in if is_digit c then rest else c ∷ s

unfoldable pub skip_colon : Text → Option Text
skip_colon [] = none
skip_colon (c ∷ s) = if nat_beq c b':' then some s else none

-- \d+$, which also matches before a last line feed
unfoldable pub ends_in_digits : Text → Bool
unfolding is_digit skip_digits
ends_in_digits [] = false
ends_in_digits (c ∷ s) =
    is_digit c && (is_empty (skip_digits s) || text_eq (skip_digits s) (b'\n' ∷ []))

-- _RE_REF_ID
unfoldable pub is_ref_id : Text → Bool
unfolding has_prefix drop skip_digits skip_colon ends_in_digits
is_ref_id s = has_prefix (codes "DMT:") s && elim (skip_colon (skip_digits (drop 4 s))) [
  | none ↦ false
  | some t ↦ elim (skip_colon (skip_digits t)) [ none ↦ false | some u ↦ ends_in_digits u ]
]

-- rest[:max(max_len - local_len, 0)]
unfoldable pub cut_to : Option ℕ → ℕ → Text → Text
cut_to none local_len rest = rest
cut_to (some max_len) local_len rest = take (max_len - local_len) rest

unfoldable pub apply_mode : Token → Mode → Text → Text
unfolding text_eq has_prefix drop cut_to is_digits is_ref_id contains replace_from
apply_mode t whole_field f = if text_eq f t.literal then t.placeholder else f
apply_mode t startswith f =
    if has_prefix t.literal f
    then t.placeholder ++ cut_to t.max_len t.local_len (drop (length t.literal) f)
    else f
apply_mode t prefix_digits f =
    if has_prefix (t.literal ++ b'-' ∷ []) f && is_digits (drop (length t.literal + 1) f)
    then t.placeholder
    else f
apply_mode t digits f = if is_digits f then t.placeholder else f
apply_mode t ref_id f = if is_ref_id f then t.placeholder else f
apply_mode t substring f =
    if contains t.literal f then replace_from t.literal t.placeholder 0 f else f

-- the token is for this column
abbrev pub covers : Option (List ℕ) → ℕ → Bool
covers none col = true
covers (some fields) col = any (λ n. nat_beq n col) fields

unfoldable pub apply_token : Token → ℕ → Text → Text
unfolding apply_mode
apply_token t col f =
    if is_empty t.literal || not (covers t.fields col) then f else apply_mode t t.mode f

unfoldable pub apply_field : Text → ℕ → List Token → Text
unfolding apply_token
apply_field f col [] = f
apply_field f col (t ∷ ts) = apply_field (apply_token t col f) col ts

-- sorted(tokens, key=-len): the longest literal first, and equal lengths in their order
unfoldable pub insert_token : Token → List Token → List Token
insert_token t [] = t ∷ []
insert_token t (u ∷ us) =
    let rest = insert_token t us in
    if leb (length u.literal) (length t.literal) then t ∷ (u ∷ us) else u ∷ rest

unfoldable pub sort_tokens : List Token → List Token
unfolding insert_token
sort_tokens [] = []
sort_tokens (t ∷ ts) = insert_token t (sort_tokens ts)

unfoldable pub apply_fields : List Token → ℕ → List Text → List Text
unfolding apply_field
apply_fields ts col [] = []
apply_fields ts col (f ∷ fs) = apply_field f col ts ∷ apply_fields ts (col + 1) fs

unfoldable pub apply_tokens : Records → List Token → Records
unfolding sort_tokens apply_fields
apply_tokens rs ts = map (apply_fields (sort_tokens ts) 0) rs
