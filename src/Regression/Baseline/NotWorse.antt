-- ===== src/Regression/Baseline/NotWorse.antt =====
-- What a run without a baseline regression is: no covered sub-object is worse.
use data_migration_tool.Prelude.{
  is_empty-append, ◌≤◌, ◌≡◌, refl, sym, ap, ◌∙◌, ◌↔◌, inl, inr, Bool, true, false, ◌||◌, none, some,
  List, [], ◌∷◌, map, arith, nat_beq, Bool-cases, Option-cases, &&-true, is_empty, any, any-append,
}
use data_migration_tool.Prelude.Text.{Text, text_eq, text_eq_sound}
use data_migration_tool.Regression.Rows.Counts.{PerObj, sorted_items, insert_named}
use data_migration_tool.Regression.Baseline.{
  Base, Now, find, now_of, deltas, names, regression_of, regressions_of, regressions,
}

-- no fewer good rows loaded, no more good rows failed and no more bad rows loaded
abbrev pub NotWorse : Base → Now → Type 0
NotWorse was now =
    (was.good_loaded ≤ now.good_loaded)
    × (now.good_failed ≤ was.good_failed)
    × (now.bad_loaded ≤ was.bad_loaded)

deltas-NotWorse : (was : Base) (now : Now) → (is_empty (deltas was now) ≡ true) ↔ NotWorse was now
unfolding deltas
deltas-NotWorse was now = (
  (λ h. (ground (arith, h), ground (arith, h), ground (arith, h))),
  (λ m. let a = m.0 in let b = m.1 in let c = m.2 in ground arith),
)

regression_of_new :
    (per : PerObj) (base : List (Text × Base)) (sub : Text)
    → find sub base ≡ none
    → regression_of per base sub ≡ []
unfolding regression_of
regression_of_new per base sub e = rw (e, regression_of) refl

regression_of_empty :
    (per : PerObj) (base : List (Text × Base)) (sub : Text) (was : Base)
    → find sub base ≡ some was
    → nat_beq was.total 0 ≡ true
    → regression_of per base sub ≡ []
unfolding regression_of
regression_of_empty per base sub was e h = rw (e, regression_of, h) refl

regression_of_covered :
    (per : PerObj) (base : List (Text × Base)) (sub : Text) (was : Base)
    → find sub base ≡ some was
    → nat_beq was.total 0 ≡ false
    → is_empty (regression_of per base sub) ≡ is_empty (deltas was (now_of sub per))
unfolding regression_of
regression_of_covered per base sub was e h = rw (e, regression_of, h) (ground arith)

-- a covered sub-object is not worse
abbrev pub Holds : PerObj → List (Text × Base) → Text → Type 0
Holds per base sub =
    (was : Base)
    → find sub base ≡ some was
    → nat_beq was.total 0 ≡ false
    → NotWorse was (now_of sub per)

is_empty-regression_of :
    (per : PerObj) (base : List (Text × Base)) (sub : Text)
    → (is_empty (regression_of per base sub) ≡ true) ↔ Holds per base sub
is_empty-regression_of per base sub = (
  (λ h was e z.
      (deltas-NotWorse was (now_of sub per)).0
        (sym (regression_of_covered per base sub was e z) ∙ h)),
  (λ k. elim (Option-cases (find sub base)) [
    | inl e ↦ ap is_empty (regression_of_new per base sub e)
    | inr (was, e) ↦ elim (Bool-cases (nat_beq was.total 0)) [
      | inl z ↦ ap is_empty (regression_of_empty per base sub was e z)
      | inr z ↦
          regression_of_covered per base sub was e z
          ∙ (deltas-NotWorse was (now_of sub per)).1 (k was e z)
    ]
  ]),
)

is_named : {A : Type 0} → Text → List (Text × A) → Bool
is_named n d = any (λ e. text_eq e.0 n) d

find-is_named :
    {A : Type 0} (n : Text) (d : List (Text × A)) (a : A) → find n d ≡ some a → is_named n d ≡ true
unfolding find is_named
find-is_named n [] a e = absurd (cc)
find-is_named n ((m, b) ∷ d) a e = elim (Bool-cases (text_eq m n)) [
  | inl h ↦ ground arith
  | inr h ↦ let k = find-is_named n d a (rw h at e) in ground arith
]

any-insert_named :
    {A : Type 0} (q : Text × A → Bool) (a : Text × A) (l : List (Text × A))
    → any q (insert_named a l) ≡ (q a || any q l)
unfolding insert_named
any-insert_named q a [] = refl
any-insert_named q a (b ∷ l) = ground (arith, any-insert_named q a l)

pub any-sorted_items :
    {A : Type 0} (q : Text × A → Bool) (l : List (Text × A)) → any q (sorted_items l) ≡ any q l
unfolding sorted_items
any-sorted_items q [] = refl
any-sorted_items q (a ∷ l) =
    any-insert_named q a (sorted_items l) ∙ ap (λ b. q a || b) (any-sorted_items q l)

any-map :
    {A B : Type 0} (q : B → Bool) (f : A → B) (l : List A) → any q (map f l) ≡ any (λ a. q (f a)) l
any-map q f [] = refl
any-map q f (a ∷ l) = ap (λ b. q (f a) || b) (any-map q f l)

-- the names of the baseline are among those compared
names_covered :
    (per : PerObj) (base : List (Text × Base)) (sub : Text) (was : Base)
    → find sub base ≡ some was
    → any (λ n. text_eq n sub) (names per base) ≡ true
unfolding names
names_covered per base sub was e =
    let k = find-is_named sub base was e in
    simp (any-map, any-sorted_items, any-append) (unfold is_named in ground (arith, k))

regressions_of-one :
    (per : PerObj) (base : List (Text × Base)) (subs : List Text) (sub : Text)
    → is_empty (regressions_of per base subs) ≡ true
    → any (λ n. text_eq n sub) subs ≡ true
    → is_empty (regression_of per base sub) ≡ true
unfolding regressions_of
regressions_of-one per base [] sub h m = absurd (cc)
regressions_of-one per base (n ∷ subs) sub h m =
    let (a, b) =
      &&-true _ _
        (sym (is_empty-append (regression_of per base n) (regressions_of per base subs)) ∙ h) in
    elim (Bool-cases (text_eq n sub)) [
      | inl e ↦ ap (λ x. is_empty (regression_of per base x)) (sym (text_eq_sound n sub e)) ∙ a
      | inr e ↦ regressions_of-one per base subs sub b (ground arith)
    ]

regressions_of-every :
    (per : PerObj) (base : List (Text × Base)) (subs : List Text)
    → ((sub : Text) → Holds per base sub)
    → is_empty (regressions_of per base subs) ≡ true
unfolding regressions_of
regressions_of-every per base [] k = refl
regressions_of-every per base (n ∷ subs) k =
    is_empty-append (regression_of per base n) (regressions_of per base subs)
    ∙ rw ((is_empty-regression_of per base n).1 (k n), regressions_of-every per base subs k) refl

-- Step 5 reports no regression exactly when no sub-object with rows in the baseline has fewer good rows
-- loaded, more good rows failed or more bad rows loaded than there; one that the run lacks counts as 0.
pub regressions-NotWorse :
    (per : PerObj) (base : List (Text × Base))
    → (is_empty (regressions per base) ≡ true) ↔ (
        (sub : Text) (was : Base)
        → find sub base ≡ some was
        → nat_beq was.total 0 ≡ false
        → NotWorse was (now_of sub per))
unfolding regressions
regressions-NotWorse per base = (
  (λ h sub was e z.
      (is_empty-regression_of per base sub).0
        (regressions_of-one per base (names per base) sub h (names_covered per base sub was e)) was
        e z),
  (λ k. regressions_of-every per base (names per base) k),
)
