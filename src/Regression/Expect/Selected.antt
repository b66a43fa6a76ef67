-- ===== src/Regression/Expect/Selected.antt =====
-- What the check of a FAILED-mode run finds.
use data_migration_tool.Prelude.{
  is_empty-append, is_empty-map, ℕ, ◌≡◌, refl, sym, ap, ◌∙◌, ◌↔◌, inl, inr, true, false, ◌&&◌, List,
  [], ◌∷◌, arith, nat_beq, Bool-cases, &&-true, is_empty,
}
use data_migration_tool.Prelude.Text.{Text}
use data_migration_tool.Regression.Expect.{
  Pick, member, insert_number, sorted_set, wanted_seqs, without, selection_failures,
}

is_empty-insert_number : (q : ℕ) (l : List ℕ) → is_empty (insert_number q l) ≡ false
unfolding insert_number
is_empty-insert_number q [] = refl
is_empty-insert_number q (p ∷ l) = ground arith

is_empty-sorted_set : (l : List ℕ) → is_empty (sorted_set l) ≡ is_empty l
unfolding sorted_set
is_empty-sorted_set [] = refl
is_empty-sorted_set (q ∷ l) = is_empty-insert_number q (sorted_set l)

member-subset :
    (a b : List ℕ) → is_empty (without a b) ≡ true → (q : ℕ) → member q a ≡ true → member q b ≡ true
member-subset [] b h q m = absurd (cc)
member-subset (p ∷ a) b h q m = elim (Bool-cases (member p b)) [
  | inr z ↦ absurd (ground (arith, h, z))
  | inl z ↦ elim (Bool-cases (nat_beq p q)) [
    | inl e ↦ let s : p ≡ q = ground arith in ap (λ x. member x b) (sym s) ∙ z
    | inr e ↦ member-subset a b (ground arith) q (ground arith)
  ]
]

nat_beq_refl : (q : ℕ) → nat_beq q q ≡ true
nat_beq_refl q = ground arith

subset-member :
    (a b : List ℕ)
    → ((q : ℕ) → member q a ≡ true → member q b ≡ true)
    → is_empty (without a b) ≡ true
subset-member [] b h = refl
subset-member (p ∷ a) b h =
    let z = h p (ground (arith, nat_beq_refl p)) in
    let rest = subset-member a b (λ q m. h q (ground (arith, m))) in ground (arith, z, rest)

-- A FAILED-mode run of a sub-object has no failure exactly when the rows in it are the staging rows
-- that FAILED_RETRY_SELECTED names, none more and none fewer.
pub selection_failures-Selected :
    (sub : Text) (rows : List Pick) (got : List ℕ)
    → (is_empty (selection_failures sub rows got) ≡ true)
      ↔ ((q : ℕ) → (member q got ≡ true) ↔ (member q (wanted_seqs rows) ≡ true))
unfolding selection_failures
selection_failures-Selected sub rows got =
    let e : is_empty (selection_failures sub rows got)
        ≡ (is_empty (without got (wanted_seqs rows)) && is_empty (without (wanted_seqs rows) got)) =
      simp (is_empty-append, is_empty-map, is_empty-sorted_set) refl in
    (
      (λ h q.
          let (a, b) = &&-true _ _ (sym e ∙ h) in
          (member-subset got (wanted_seqs rows) a q, member-subset (wanted_seqs rows) got b q)),
      (λ k.
          let a = subset-member got (wanted_seqs rows) (λ q. (k q).0) in
          let b = subset-member (wanted_seqs rows) got (λ q. (k q).1) in e ∙ rw (a, b) refl),
    )
