-- ===== src/Prelude/Text.antt =====
-- Text as code points, with what the scripts use of Python's `str`: strip, lower, replace, split,
-- prefixes and suffixes. A call on a native `String` goes through `codes`.
use Prim.Native.Nat.{ℕ, ◌+◌, ◌-◌}
use Prim.Native.Char.{code}
use Prim.Native.String.{String}
use mathlib.Core.Path.{◌≡◌, refl, ap, sym, ◌∙◌}
use mathlib.Core.Bool.{Bool, true, false, not, ◌&&◌, ◌||◌}
use mathlib.Core.List.{List, [], ◌∷◌, ◌++◌, map, reverse, reverse-append, reverse-reverse}
use native.Mathlib.Omega.{arith}
use data_migration_tool.Prelude.Tests.{nat_beq, leb, if◌then◌else◌, &&-true}
use data_migration_tool.Prelude.Lists.{All, all}

abbrev pub Text : Type 0
Text = List ℕ

abbrev pub codes : String → Text
codes String.[] = []
codes (String.◌∷◌ c s) = code c ∷ codes s

unfoldable pub text_eq : Text → Text → Bool
text_eq [] [] = true
text_eq [] (y ∷ ys) = false
text_eq (x ∷ xs) [] = false
text_eq (x ∷ xs) (y ∷ ys) = nat_beq x y && text_eq xs ys

pub text_eq_sound : (xs ys : Text) → text_eq xs ys ≡ true → xs ≡ ys
unfolding text_eq
text_eq_sound [] [] h = refl
text_eq_sound [] (y ∷ ys) h = cc
text_eq_sound (x ∷ xs) [] h = cc
text_eq_sound (x ∷ xs) (y ∷ ys) h =
    let (p, q) = &&-true (nat_beq x y) (text_eq xs ys) h in
    let e : x ≡ y = ground arith in cc (text_eq_sound xs ys q)

pub text_eq_refl : (xs : Text) → text_eq xs xs ≡ true
unfolding text_eq
text_eq_refl [] = refl
text_eq_refl (x ∷ xs) = ground (arith, text_eq_refl xs)

-- s.startswith(p), with the prefix first
unfoldable pub has_prefix : Text → Text → Bool
has_prefix [] s = true
has_prefix (x ∷ p) [] = false
has_prefix (x ∷ p) (y ∷ s) = nat_beq x y && has_prefix p s

-- s.endswith(p), with the suffix first
unfoldable pub has_suffix : Text → Text → Bool
unfolding has_prefix
has_suffix p s = has_prefix (reverse p) (reverse s)

-- str.isspace, of one character
unfoldable pub is_space : ℕ → Bool
is_space c =
    (leb 9 c && leb c 13)
    || (leb 28 c && leb c 32)
    || nat_beq c 133
    || nat_beq c 160
    || nat_beq c 5760
    || (leb 8192 c && leb c 8202)
    || nat_beq c 8232
    || nat_beq c 8233
    || nat_beq c 8239
    || nat_beq c 8287
    || nat_beq c 12288

unfoldable pub lstrip : Text → Text
unfolding is_space
lstrip [] = []
lstrip (c ∷ s) = let rest = lstrip s in if is_space c then rest else c ∷ s

unfoldable pub rstrip : Text → Text
unfolding lstrip
rstrip s = reverse (lstrip (reverse s))

unfoldable pub strip : Text → Text
unfolding lstrip rstrip
strip s = rstrip (lstrip s)

-- str.lower on ASCII
unfoldable pub lower_code : ℕ → ℕ
lower_code c = if leb b'A' c && leb c b'Z' then c + 32 else c

unfoldable pub upper_code : ℕ → ℕ
upper_code c = if leb b'a' c && leb c b'z' then c - 32 else c

unfoldable pub lower : Text → Text
unfolding lower_code
lower = map lower_code

unfoldable pub upper : Text → Text
unfolding upper_code
upper = map upper_code

-- s.replace(old, new) for one character each
unfoldable pub replace_code : ℕ → ℕ → Text → Text
replace_code old new = map (λ c. if nat_beq c old then new else c)

-- put a character in front of the first piece
abbrev pub onto_first : ℕ → List Text → List Text
onto_first c [] = (c ∷ []) ∷ []
onto_first c (p ∷ ps) = (c ∷ p) ∷ ps

-- s.split(sep) for one character
unfoldable pub split_on : ℕ → Text → List Text
split_on sep [] = [] ∷ []
split_on sep (c ∷ s) =
    let rest = split_on sep s in if nat_beq c sep then [] ∷ rest else onto_first c rest

-- sep.join(pieces) for one character
unfoldable pub join_with : ℕ → List Text → Text
join_with sep [] = []
join_with sep (p ∷ []) = p
join_with sep (p ∷ (q ∷ ps)) = p ++ sep ∷ join_with sep (q ∷ ps)

pub has_prefix_sound : (p s : Text) → has_prefix p s ≡ true → (rest : Text) × (s ≡ p ++ rest)
unfolding has_prefix
has_prefix_sound [] s h = (s, refl)
has_prefix_sound (x ∷ p) [] h = absurd (cc)
has_prefix_sound (x ∷ p) (y ∷ s) h =
    let (a, b) = &&-true (nat_beq x y) (has_prefix p s) h in
    let e : x ≡ y = ground arith in let (rest, q) = has_prefix_sound p s b in (rest, cc)

pub has_prefix-append : (p rest : Text) → has_prefix p (p ++ rest) ≡ true
unfolding has_prefix
has_prefix-append [] rest = refl
has_prefix-append (x ∷ p) rest = ground (arith, has_prefix-append p rest)

pub has_suffix_sound : (p s : Text) → has_suffix p s ≡ true → (stem : Text) × (s ≡ stem ++ p)
unfolding has_suffix
has_suffix_sound p s h =
    let (rest, e) = has_prefix_sound (reverse p) (reverse s) h in
    (
      reverse rest,
      sym (reverse-reverse s)
          ∙ ap reverse e
          ∙ reverse-append (reverse p) rest
          ∙ ap (λ (t : Text). reverse rest ++ t) (reverse-reverse p),
    )

pub has_suffix-append : (p stem : Text) → has_suffix p (stem ++ p) ≡ true
unfolding has_suffix
has_suffix-append p stem = rw reverse-append (has_prefix-append (reverse p) (reverse stem))

-- A text in which `sep` does not stand.
abbrev pub Lacks : ℕ → Text → Type 0
Lacks sep s = All (λ c. nat_beq c sep ≡ false) s

-- The output of a git command with `-z`: every record is followed by a NUL.
abbrev pub z_output : List Text → Text
z_output [] = []
z_output (r ∷ rs) = r ++ 0 ∷ z_output rs

split_on-record : (r rest : Text) → Lacks 0 r → split_on 0 (r ++ 0 ∷ rest) ≡ r ∷ split_on 0 rest
unfolding split_on
split_on-record [] rest h = refl
split_on-record (c ∷ r) rest h = rw (h.0, split_on-record r rest h.1)

-- Splitting at the NULs gives the records back, and an empty text behind the last of them.
pub split_on-z_output :
    (rs : List Text) → All (Lacks 0) rs → split_on 0 (z_output rs) ≡ rs ++ [] ∷ []
split_on-z_output [] h = unfold split_on in refl
split_on-z_output (r ∷ rs) h =
    split_on-record r (z_output rs) h.0 ∙ ap (λ (l : List Text). r ∷ l) (split_on-z_output rs h.1)

Lacks-of_test : (sep : ℕ) (s : Text) → all (λ c. not (nat_beq c sep)) s ≡ true → Lacks sep s
Lacks-of_test sep [] h = tt
Lacks-of_test sep (c ∷ s) h = (ground arith, Lacks-of_test sep s (ground arith))

pub All-Lacks-of_test :
    (sep : ℕ) (rs : List Text)
    → all (λ r. all (λ c. not (nat_beq c sep)) r) rs ≡ true
    → All (Lacks sep) rs
All-Lacks-of_test sep [] h = tt
All-Lacks-of_test sep (r ∷ rs) h =
    (Lacks-of_test sep r (ground arith), All-Lacks-of_test sep rs (ground arith))
