-- ===== src/Deploy/Comments.antt =====
-- The rounds of `_strip_leading_comments` are enough: nothing is left to strip.
use data_migration_tool.Prelude.{
  ℕ, zero, suc, ◌-◌, ◌≤◌, ◌<◌, ◌≡◌, refl, ap, ◌⊎◌, inl, inr, true, none, some, [], ◌∷◌, arith,
  nat_beq, Bool-cases, Option-cases, length,
}
use data_migration_tool.Prelude.Text.{
  Text, codes, text_eq, text_eq_sound, text_eq_refl, has_prefix, is_space, lstrip,
}
use data_migration_tool.Regression.Issue.{after}
use data_migration_tool.Deploy.Words.{behind, strip_comment, strip_rounds, strip_leading_comments}

length-lstrip : (t : Text) → length (lstrip t) ≤ length t
unfolding lstrip
length-lstrip [] = omega arith
length-lstrip (c ∷ t) = elim (Bool-cases (is_space c)) [
  | inl h ↦ rw h (omega (arith, length-lstrip t))
  | inr h ↦ rw h (omega arith)
]

lstrip-shrinks : (t : Text) → (lstrip t ≡ t) ⊎ (length (lstrip t) < length t)
unfolding lstrip
lstrip-shrinks [] = inl refl
lstrip-shrinks (c ∷ t) = elim (Bool-cases (is_space c)) [
  | inl h ↦ inr (rw h (omega (arith, length-lstrip t)))
  | inr h ↦ inl (rw h refl)
]

length-after : (p t s : Text) → after p t ≡ some s → length s ≤ length t
unfolding after
length-after [] t s h =
    let e : t ≡ s = cc in let k = ap (λ (x : Text). length x) e in omega (arith, k)
length-after (x ∷ p) [] s h = absurd (cc)
length-after (x ∷ p) (y ∷ t) s h = elim (Bool-cases (nat_beq x y)) [
  | inl e ↦ omega (arith, length-after p t s (rw e at h))
  | inr e ↦ absurd (cc (rw e at h))
]

length-after_mark :
    (x : ℕ) (p : Text) (c : ℕ) (t s : Text) → after (x ∷ p) (c ∷ t) ≡ some s → length s ≤ length t
unfolding after
length-after_mark x p c t s h = elim (Bool-cases (nat_beq x c)) [
  | inl e ↦ length-after p t s (rw e at h)
  | inr e ↦ absurd (cc (rw e at h))
]

behind-none : (p : Text) (c : ℕ) (t : Text) → after p (c ∷ t) ≡ none → behind p (c ∷ t) ≡ behind p t
unfolding behind
behind-none p c t e = rw (e, behind) refl

behind-some : (p : Text) (c : ℕ) (t s : Text) → after p (c ∷ t) ≡ some s → behind p (c ∷ t) ≡ s
unfolding behind
behind-some p c t s e = rw (e, behind) refl

length-behind : (x : ℕ) (p t : Text) → length (behind (x ∷ p) t) ≤ length t - 1
length-behind x p [] = unfold behind in omega arith
length-behind x p (c ∷ t) = elim (Option-cases (after (x ∷ p) (c ∷ t))) [
  | inl e ↦ rw (behind-none (x ∷ p) c t e) (omega (arith, length-behind x p t))
  | inr (s, e) ↦ rw (behind-some (x ∷ p) c t s e) (omega (arith, length-after_mark x p c t s e))
]

length-marked : (x : ℕ) (p t : Text) → has_prefix (x ∷ p) t ≡ true → 0 < length t
unfolding has_prefix
length-marked x p [] h = absurd (cc)
length-marked x p (c ∷ t) h = omega arith

strip_comment-shrinks : (t : Text) → (strip_comment t ≡ t) ⊎ (length (strip_comment t) < length t)
unfolding strip_comment
strip_comment-shrinks t = elim (Bool-cases (has_prefix (codes "--") (lstrip t))) [
  | inl h ↦ inr (
      rw h (
        omega (
          arith,
          length-behind 10 [] (lstrip t),
          length-marked b'-' (codes "-") (lstrip t) h,
          length-lstrip t,
        )))
  | inr h ↦ elim (Bool-cases (has_prefix (codes "/*") (lstrip t))) [
    | inl k ↦ inr (
        rw (h, k)
          (omega (
            arith,
            length-behind b'*' (codes "/") (lstrip t),
            length-marked b'/' (codes "*") (lstrip t) k,
            length-lstrip t,
          )))
    | inr k ↦ rw (h, k) (lstrip-shrinks t)
  ]
]

strip_rounds-fixed :
    (fuel : ℕ) (t : Text)
    → length t ≤ fuel
    → strip_comment (strip_rounds fuel t) ≡ strip_rounds fuel t
unfolding strip_rounds
strip_rounds-fixed zero [] h = unfold strip_comment lstrip has_prefix in refl
strip_rounds-fixed zero (c ∷ t) h = absurd (omega arith)
strip_rounds-fixed (suc fuel) t h = elim (Bool-cases (text_eq (strip_comment t) t)) [
  | inl e ↦ rw e (text_eq_sound (strip_comment t) t e)
  | inr e ↦ elim (strip_comment-shrinks t) [
    | inl same ↦ absurd (let q = ap (λ (x : Text). text_eq x t) same in cc (q, e, text_eq_refl t))
    | inr less ↦ rw e (strip_rounds-fixed fuel (strip_comment t) (omega arith))
  ]
]

-- The text that is left starts with no white space and no comment: another round changes nothing.
pub strip_leading_comments-fixed :
    (t : Text) → strip_comment (strip_leading_comments t) ≡ strip_leading_comments t
unfolding strip_leading_comments
strip_leading_comments-fixed t = strip_rounds-fixed (length t) t (omega arith)
