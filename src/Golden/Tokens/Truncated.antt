-- ===== src/Golden/Tokens/Truncated.antt =====
-- Values that were cut behind their prefix: `PREFIXED` of db/packages/dmt_util_pkg.pkb.sql, and the token
-- with a max_len that test/golden/compare_fbdi.py declares for them.
use data_migration_tool.Prelude.{
  ℕ, zero, suc, ◌-◌, ◌≤◌, ◌≡◌, refl, sym, ap, ◌∙◌, true, false, Option, some, List, [], ◌∷◌, ◌++◌,
  arith, length, take, is_empty,
}
use data_migration_tool.Prelude.Text.{Text, has_prefix, has_prefix-append}
use data_migration_tool.Golden.Tokens.{
  Token, startswith, drop, cut_to, apply_mode, covers, apply_token,
}

-- SUBSTR(prefix || value, 1, max_len); an empty value is NULL and stays NULL
unfoldable pub prefixed : Text → Text → ℕ → Text
prefixed prefix [] max_len = []
prefixed prefix (c ∷ value) max_len = take max_len (prefix ++ c ∷ value)

take-append : (p v : Text) (m : ℕ) → length p ≤ m → take m (p ++ v) ≡ p ++ take (m - length p) v
take-append [] v m h = let e : m - 0 ≡ m = omega arith in rw e refl
take-append (c ∷ p) v zero h = absurd (omega arith)
take-append (c ∷ p) v (suc m) h =
    let e : suc m - suc (length p) ≡ m - length p = omega arith in
    rw e (ap (λ (s : Text). c ∷ s) (take-append p v m (omega arith)))

drop-append : (p v : Text) → drop (length p) (p ++ v) ≡ v
unfolding drop
drop-append [] v = refl
drop-append (c ∷ p) v = drop-append p v

take-take : (m n : ℕ) (v : Text) → n ≤ m → take n (take m v) ≡ take n v
take-take m zero v h = refl
take-take zero (suc n) v h = absurd (omega arith)
take-take (suc m) (suc n) [] h = refl
take-take (suc m) (suc n) (c ∷ v) h = ap (λ (s : Text). c ∷ s) (take-take m n v (omega arith))

-- the token of one side of the compare: its own literal, the local literal's length
abbrev pub cut_token : Text → Text → Option (List ℕ) → ℕ → ℕ → Token
cut_token literal placeholder fields max_len local_len = record {
  literal = literal;
  placeholder = placeholder;
  mode = startswith;
  fields = fields;
  max_len = some max_len;
  local_len = local_len;
}

apply_mode-startswith :
    (t : Token) (r : Text)
    → apply_mode t startswith (t.literal ++ r) ≡ t.placeholder ++ cut_to t.max_len t.local_len r
unfolding apply_mode
apply_mode-startswith t r = rw (has_prefix-append t.literal r, drop-append t.literal r) refl

apply_token_covered :
    (t : Token) (col : ℕ) (f : Text)
    → is_empty t.literal ≡ false
    → covers t.fields col ≡ true
    → apply_token t col f ≡ apply_mode t t.mode f
unfolding apply_token
apply_token_covered t col f ne k = rw (ne, apply_token, k) refl

apply_mode_empty : (t : Token) → is_empty t.literal ≡ false → apply_mode t startswith [] ≡ []
unfolding apply_mode has_prefix
apply_mode_empty t ne = ground arith

-- what is left of a value behind its prefix
abbrev cut_value : Text → ℕ → Text → Text
cut_value placeholder n [] = []
cut_value placeholder n (c ∷ v) = placeholder ++ take n (c ∷ v)

apply_token-prefixed :
    (l placeholder v : Text) (fields : Option (List ℕ)) (col max_len local_len : ℕ)
    → is_empty l ≡ false
    → length l ≤ local_len
    → local_len ≤ max_len
    → covers fields col ≡ true
    → apply_token (cut_token l placeholder fields max_len local_len) col (prefixed l v max_len)
      ≡ cut_value placeholder (max_len - local_len) v
unfolding prefixed
apply_token-prefixed l placeholder [] fields col m n ne a b k =
    apply_token_covered (cut_token l placeholder fields m n) col [] ne k
    ∙ apply_mode_empty (cut_token l placeholder fields m n) ne
apply_token-prefixed l placeholder (c ∷ v) fields col m n ne a b k =
    let t = cut_token l placeholder fields m n in
    apply_token_covered t col _ ne k
    ∙ ap (apply_mode t startswith) (take-append l (c ∷ v) m (omega arith))
    ∙ apply_mode-startswith t (take (m - length l) (c ∷ v))
    ∙ unfold cut_to in
      ap (λ (s : Text). placeholder ++ s) (take-take (m - length l) (m - n) (c ∷ v) (omega arith))

-- A value that was cut behind the golden run's prefix and the same value cut behind the local run's become
-- equal, where the golden prefix is no longer than the local one and that fits the column.
pub apply_token-prefixed_agree :
    (golden local placeholder v : Text) (fields : Option (List ℕ)) (col max_len : ℕ)
    → is_empty golden ≡ false
    → length golden ≤ length local
    → length local ≤ max_len
    → covers fields col ≡ true
    → apply_token
        (cut_token golden placeholder fields max_len (length local))
        col
        (prefixed golden v max_len)
      ≡ apply_token
          (cut_token local placeholder fields max_len (length local))
          col
          (prefixed local v max_len)
apply_token-prefixed_agree golden local placeholder v fields col m ne a b k =
    apply_token-prefixed golden placeholder v fields col m (length local) ne a b k
    ∙ sym (
        apply_token-prefixed local placeholder v fields col m (length local)
          (longer golden local ne a) (omega arith) b k)
  where
    longer : (g l : Text) → is_empty g ≡ false → length g ≤ length l → is_empty l ≡ false
    longer [] l h q = cc
    longer (c ∷ g) [] h q = absurd (omega arith)
    longer (c ∷ g) (d ∷ l) h q = refl
