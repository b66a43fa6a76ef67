-- ===== src/Regression/Expect/Chunks.antt =====
-- The chunks in which `resolve_expectations` asks for the staging rows.
use data_migration_tool.Prelude.{
  ℕ, zero, suc, ◌≤◌, ◌≡◌, refl, ap, ◌∙◌, List, [], ◌∷◌, ◌++◌, arith, length, All,
}
use data_migration_tool.Regression.Expect.{cut, chunks}

abbrev pub flat : List (List ℕ) → List ℕ
flat [] = []
flat (c ∷ cs) = c ++ flat cs

cut_append : (n : ℕ) (l : List ℕ) → (cut n l).0 ++ (cut n l).1 ≡ l
unfolding cut
cut_append zero l = refl
cut_append (suc n) [] = refl
cut_append (suc n) (x ∷ l) = ap (λ k. x ∷ k) (cut_append n l)

length-cut : (n : ℕ) (l : List ℕ) → length (cut n l).0 ≤ n
unfolding cut
length-cut zero l = omega arith
length-cut (suc n) [] = omega arith
length-cut (suc n) (x ∷ l) = omega (arith, length-cut n l)

length-rest : (n : ℕ) (l : List ℕ) → length (cut n l).1 ≤ length l
unfolding cut
length-rest zero l = omega arith
length-rest (suc n) [] = omega arith
length-rest (suc n) (x ∷ l) = omega (arith, length-rest n l)

-- With as much fuel as there are values, the chunks put together are the values again, and no chunk is
-- longer than the limit.
pub chunks-flat :
    (fuel n : ℕ) (l : List ℕ)
    → length l ≤ fuel
    → (flat (chunks fuel (suc n) l) ≡ l) × All (λ c. length c ≤ suc n) (chunks fuel (suc n) l)
unfolding chunks
chunks-flat zero n [] h = (refl, tt)
chunks-flat zero n (x ∷ l) h = absurd (omega arith)
chunks-flat (suc fuel) n [] h = (refl, tt)
chunks-flat (suc fuel) n (x ∷ l) h =
    let short : length (cut (suc n) (x ∷ l)).1 ≤ fuel =
      unfold cut in omega (arith, length-rest n l) in
    let (a, b) = chunks-flat fuel n (cut (suc n) (x ∷ l)).1 short in
    (
      ap (λ k. (cut (suc n) (x ∷ l)).0 ++ k) a ∙ cut_append (suc n) (x ∷ l),
      (length-cut (suc n) (x ∷ l), b),
    )
