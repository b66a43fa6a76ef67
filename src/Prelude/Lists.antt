-- ===== src/Prelude/Lists.antt =====
-- Lists measured by native numbers, and Python's `any`, `all` and `not l` over lists.
use Prim.Native.Nat.{ℕ, zero, suc, ◌+◌}
use mathlib.Core.Path.{◌≡◌, refl}
use mathlib.Core.Logic.{◌↔◌, inl, inr}
use mathlib.Core.Bool.{Bool, true, false, not, ◌&&◌, ◌||◌}
use mathlib.Core.List.{List, [], ◌∷◌, ◌++◌, map}
use native.Mathlib.Omega.{arith}
use data_migration_tool.Prelude.Tests.{if◌then◌else◌, Bool-cases}

module _ {ℓ} {A : Type ℓ} where
  abbrev pub length : List A → ℕ
  length [] = 0
  length (x ∷ xs) = suc (length xs)

  abbrev pub take : ℕ → List A → List A
  take zero xs = []
  take (suc n) [] = []
  take (suc n) (x ∷ xs) = x ∷ take n xs

  abbrev pub is_empty : List A → Bool
  is_empty [] = true
  is_empty (x ∷ xs) = false

  abbrev pub any : (A → Bool) → List A → Bool
  any p [] = false
  any p (x ∷ xs) = p x || any p xs

  abbrev pub all : (A → Bool) → List A → Bool
  all p [] = true
  all p (x ∷ xs) = p x && all p xs

  -- [x for x in xs if p(x)]
  abbrev pub keep : (A → Bool) → List A → List A
  keep p [] = []
  keep p (x ∷ xs) = let rest = keep p xs in if p x then x ∷ rest else rest

  abbrev pub All {κ} : (A → Type κ) → List A → Type κ
  All P [] = Unit
  All P (x ∷ xs) = P x × All P xs

module _ {ℓ} {A : Type ℓ} where
  pub length-append : (xs ys : List A) → length (xs ++ ys) ≡ length xs + length ys
  length-append [] ys = omega arith
  length-append (x ∷ xs) ys = omega (arith, length-append xs ys)

  pub keep-append : (p : A → Bool) (xs ys : List A) → keep p (xs ++ ys) ≡ keep p xs ++ keep p ys
  keep-append p [] ys = refl
  keep-append p (x ∷ xs) ys = ground (arith, keep-append p xs ys)

  pub any-append : (p : A → Bool) (xs ys : List A) → any p (xs ++ ys) ≡ (any p xs || any p ys)
  any-append p [] ys = refl
  any-append p (x ∷ xs) ys = ground (arith, any-append p xs ys)

  -- nothing is left over exactly when every element passes
  pub is_empty-keep-not :
      (p : A → Bool) (xs : List A)
      → (is_empty (keep (λ x. not (p x)) xs) ≡ true) ↔ All (λ x. p x ≡ true) xs
  is_empty-keep-not p [] = (λ h. tt, λ h. refl)
  is_empty-keep-not p (x ∷ xs) =
      let (to, from) = is_empty-keep-not p xs in
      elim (Bool-cases (p x)) [
        | inl h ↦ rw h ((λ k. (refl, to k)), (λ k. from k.1))
        | inr h ↦ rw h ((λ k. absurd (cc)), (λ k. absurd (cc k.0)))
      ]

module _ {ℓ} {A : Type ℓ} where
  pub is_empty-append : (xs ys : List A) → is_empty (xs ++ ys) ≡ (is_empty xs && is_empty ys)
  is_empty-append [] ys = refl
  is_empty-append (x ∷ xs) ys = refl

  pub is_empty-map : {B : Type ℓ} (f : A → B) (xs : List A) → is_empty (map f xs) ≡ is_empty xs
  is_empty-map f [] = refl
  is_empty-map f (x ∷ xs) = refl

  pub both_empty :
      (xs ys : List A) → is_empty (xs ++ ys) ≡ true → (is_empty xs ≡ true) × (is_empty ys ≡ true)
  both_empty [] ys e = (refl, e)
  both_empty (x ∷ xs) ys e = absurd (cc)

  pub empty_both :
      (xs ys : List A) → is_empty xs ≡ true → is_empty ys ≡ true → is_empty (xs ++ ys) ≡ true
  empty_both [] ys a b = b
  empty_both (x ∷ xs) ys a b = absurd (cc)

module _ {ℓ κ} {A : Type ℓ} {B : Type κ} where
  -- [y for x in xs for y in f(x)]
  abbrev pub collect : (A → List B) → List A → List B
  collect f [] = []
  collect f (x ∷ xs) = f x ++ collect f xs

  pub is_empty-collect :
      (f : A → List B) (xs : List A)
      → (is_empty (collect f xs) ≡ true) ↔ All (λ x. is_empty (f x) ≡ true) xs
  is_empty-collect f [] = (λ e. tt, λ a. refl)
  is_empty-collect f (x ∷ xs) =
      let (to, from) = is_empty-collect f xs in
      (
        λ e. let (a, b) = both_empty (f x) (collect f xs) e in (a, to b),
        λ a. empty_both (f x) (collect f xs) a.0 (from a.1),
      )
