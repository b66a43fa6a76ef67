-- ===== src/Scenario/Dict.antt =====
-- The dicts of scripts/regression_scenario.json: keyed by a text, in the order of insertion.
use data_migration_tool.Prelude.{
  ◌≡◌, refl, sym, ap, ◌∙◌, inl, inr, Bool, true, false, ◌||◌, Option, none, some, List, [], ◌∷◌,
  arith, if◌then◌else◌, Bool-cases,
}
use data_migration_tool.Prelude.Text.{Text, text_eq, text_eq_sound, text_eq_refl}

abbrev pub Dict : Type 0 → Type 0
Dict A = List (Text × A)

module _ {A : Type 0} where
  -- d.get(k)
  unfoldable pub look : Dict A → Text → Option A
  look [] k = none
  look ((j, a) ∷ d) k = if text_eq j k then some a else look d k

  -- k in d
  unfoldable pub has : Dict A → Text → Bool
  has [] k = false
  has ((j, a) ∷ d) k = text_eq j k || has d k

  -- d[k] = a
  unfoldable pub put : Text → A → Dict A → Dict A
  put k a [] = (k, a) ∷ []
  put k a ((j, b) ∷ d) = if text_eq j k then (k, a) ∷ d else (j, b) ∷ put k a d

  -- d.pop(k)
  unfoldable pub remove : Text → Dict A → Dict A
  remove k [] = []
  remove k ((j, b) ∷ d) = let rest = remove k d in if text_eq j k then d else (j, b) ∷ rest

  pub look-put : (k : Text) (a : A) (d : Dict A) → look (put k a d) k ≡ some a
  unfolding look put
  look-put k a [] = rw (text_eq_refl k)
  look-put k a ((j, b) ∷ d) = elim (Bool-cases (text_eq j k)) [
    | inl e ↦ rw (e, put, look, text_eq_refl k)
    | inr e ↦ rw (e, put, look, e) (look-put k a d)
  ]

  pub look-put_at : (k n : Text) (a : A) (d : Dict A) → k ≡ n → look (put k a d) n ≡ some a
  look-put_at k n a d e = ap (λ (x : Text). look (put k a d) x) (sym e) ∙ look-put k a d

  pub look-put_other :
      (k n : Text) (a : A) (d : Dict A) → text_eq k n ≡ false → look (put k a d) n ≡ look d n
  unfolding look put
  look-put_other k n a [] h = rw h
  look-put_other k n a ((j, b) ∷ d) h = elim (Bool-cases (text_eq j k)) [
    | inl e ↦
        let same : j ≡ k = text_eq_sound j k e in
        let other : text_eq j n ≡ false = rw same h in rw (e, put, look, h, other)
    | inr e ↦ ground (arith, look-put_other k n a d h)
  ]

  pub has-put : (k n : Text) (a : A) (d : Dict A) → has (put k a d) n ≡ (text_eq k n || has d n)
  unfolding has put
  has-put k n a [] = refl
  has-put k n a ((j, b) ∷ d) = elim (Bool-cases (text_eq j k)) [
    | inl e ↦
        let same : j ≡ k = text_eq_sound j k e in
        let alike : text_eq j n ≡ text_eq k n = rw same refl in ground (arith, e, alike)
    | inr e ↦ ground (arith, e, has-put k n a d)
  ]

  pub has-look : (k : Text) (a : A) (d : Dict A) → look d k ≡ some a → has d k ≡ true
  unfolding has look
  has-look k a [] h = cc
  has-look k a ((j, b) ∷ d) h = ground (arith, has-look k a d)

  pub has-none : (k : Text) (d : Dict A) → look d k ≡ none → has d k ≡ false
  unfolding has look
  has-none k [] h = refl
  has-none k ((j, b) ∷ d) h = ground (arith, has-none k d)

  pub has-remove : (k n : Text) (d : Dict A) → text_eq k n ≡ false → has (remove k d) n ≡ has d n
  unfolding has remove
  has-remove k n [] h = refl
  has-remove k n ((j, b) ∷ d) h = elim (Bool-cases (text_eq j k)) [
    | inl e ↦
        let same : j ≡ k = text_eq_sound j k e in
        let other : text_eq j n ≡ false = rw same h in ground (arith, e, other)
    | inr e ↦ ground (arith, e, has-remove k n d h)
  ]

  -- what was put behind a dict without the key is taken out again
  pub remove-put : (k : Text) (a : A) (d : Dict A) → has d k ≡ false → remove k (put k a d) ≡ d
  unfolding has remove put
  remove-put k a [] h = ground (arith, text_eq_refl k)
  remove-put k a ((j, b) ∷ d) h = ground (arith, remove-put k a d)

  -- a new key leaves the other entries alone
  pub look-put_new :
      (k n : Text) (a b : A) (d : Dict A)
      → look d n ≡ some b
      → has d k ≡ false
      → look (put k a d) n ≡ some b
  look-put_new k n a b d h new = elim (Bool-cases (text_eq k n)) [
    | inl e ↦
        let same : k ≡ n = text_eq_sound k n e in
        let known : has d k ≡ true = rw same (has-look n b d h) in absurd (cc)
    | inr e ↦ look-put_other k n a d e ∙ h
  ]

  pub look-remove_other :
      (k n : Text) (d : Dict A) → text_eq k n ≡ false → look (remove k d) n ≡ look d n
  unfolding look remove
  look-remove_other k n [] h = refl
  look-remove_other k n ((j, b) ∷ d) h = elim (Bool-cases (text_eq j k)) [
    | inl e ↦
        let same : j ≡ k = text_eq_sound j k e in
        let other : text_eq j n ≡ false = rw same h in ground (arith, e, other)
    | inr e ↦ ground (arith, e, look-remove_other k n d h)
  ]
