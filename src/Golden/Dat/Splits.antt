-- ===== src/Golden/Dat/Splits.antt =====
-- Splitting at a separator and joining with it undo each other.
use data_migration_tool.Prelude.{
  ℕ, ◌≡◌, refl, ap, ◌∙◌, inl, inr, Bool, true, false, not, ◌&&◌, List, [], ◌∷◌, ◌++◌, arith,
  nat_beq, Bool-cases, is_empty, All,
}
use data_migration_tool.Prelude.Text.{Text, split_on, join_with, onto_first}

abbrev pub Each : (ℕ → Bool) → Text → Type 0
Each p s = All (λ c. p c ≡ true) s

-- the characters of a test that are not the separator
abbrev pub but : (ℕ → Bool) → ℕ → ℕ → Bool
but p sep c = p c && not (nat_beq c sep)

Each-onto_first :
    (p : ℕ → Bool) (c : ℕ) (ps : List Text)
    → p c ≡ true
    → All (Each p) ps
    → All (Each p) (onto_first c ps)
Each-onto_first p c [] h a = ((h, tt), tt)
Each-onto_first p c (q ∷ ps) h a = ((h, a.0), a.1)

pub split_on-Each :
    (p : ℕ → Bool) (sep : ℕ) (s : Text) → Each p s → All (Each (but p sep)) (split_on sep s)
unfolding split_on
split_on-Each p sep [] a = (tt, tt)
split_on-Each p sep (c ∷ s) a =
    let rest = split_on-Each p sep s a.1 in
    elim (Bool-cases (nat_beq c sep)) [
      | inl h ↦ rw (h, split_on) (tt, rest)
      | inr h ↦
          rw (h, split_on) (Each-onto_first (but p sep) c (split_on sep s) (ground arith) rest)
    ]

pub split_on_ne : (sep : ℕ) (s : Text) → is_empty (split_on sep s) ≡ false
unfolding split_on
split_on_ne sep [] = refl
split_on_ne sep (c ∷ s) = ground (arith, split_on_ne sep s)

pub Each-append : (p : ℕ → Bool) (s t : Text) → Each p s → Each p t → Each p (s ++ t)
Each-append p [] t a b = b
Each-append p (c ∷ s) t a b = (a.0, Each-append p s t a.1 b)

pub Each-append-left : (p : ℕ → Bool) (s t : Text) → Each p (s ++ t) → Each p s
Each-append-left p [] t a = tt
Each-append-left p (c ∷ s) t a = (a.0, Each-append-left p s t a.1)

pub Each-weaken :
    (p q : ℕ → Bool) (s : Text) → ((c : ℕ) → p c ≡ true → q c ≡ true) → Each p s → Each q s
Each-weaken p q [] f a = tt
Each-weaken p q (c ∷ s) f a = (f c a.0, Each-weaken p q s f a.1)

pub join_with-Each :
    (p : ℕ → Bool) (sep : ℕ) (ps : List Text)
    → p sep ≡ true
    → All (Each p) ps
    → Each p (join_with sep ps)
unfolding join_with
join_with-Each p sep [] h a = tt
join_with-Each p sep (q ∷ []) h a = a.0
join_with-Each p sep (q ∷ (r ∷ ps)) h a =
    Each-append p q (sep ∷ join_with sep (r ∷ ps)) a.0 (h, join_with-Each p sep (r ∷ ps) h a.1)

split_on_piece : (p : ℕ → Bool) (sep : ℕ) (q : Text) → Each (but p sep) q → split_on sep q ≡ q ∷ []
unfolding split_on
split_on_piece p sep [] a = refl
split_on_piece p sep (c ∷ q) a =
    let other : nat_beq c sep ≡ false = ground arith in
    rw (other, split_on, split_on_piece p sep q a.1) refl

split_on_pieces :
    (p : ℕ → Bool) (sep : ℕ) (q t : Text)
    → Each (but p sep) q
    → split_on sep (q ++ sep ∷ t) ≡ q ∷ split_on sep t
unfolding split_on
split_on_pieces p sep [] t a = ground arith
split_on_pieces p sep (c ∷ q) t a =
    let other : nat_beq c sep ≡ false = ground arith in
    rw (other, split_on, split_on_pieces p sep q t a.1) refl

-- sep.join(pieces).split(sep), where no piece has the separator in it
pub split_on-join_with :
    (p : ℕ → Bool) (sep : ℕ) (ps : List Text)
    → is_empty ps ≡ false
    → All (Each (but p sep)) ps
    → split_on sep (join_with sep ps) ≡ ps
unfolding join_with
split_on-join_with p sep [] ne a = cc
split_on-join_with p sep (q ∷ []) ne a = split_on_piece p sep q a.0
split_on-join_with p sep (q ∷ (r ∷ ps)) ne a =
    split_on_pieces p sep q (join_with sep (r ∷ ps)) a.0
    ∙ ap (λ (l : List Text). q ∷ l) (split_on-join_with p sep (r ∷ ps) refl a.1)
