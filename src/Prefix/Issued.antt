-- ===== src/Prefix/Issued.antt =====
-- The prefix that a sync aims at, against the runs of the two instances.
use data_migration_tool.Prelude.{
  ℕ, ◌+◌, ◌-◌, ◌≤◌, ◌<◌, max, ◌≡◌, refl, sym, ap, ◌∙◌, ◌⊎◌, inl, inr, Bool, true, false, ◌||◌,
  Option, none, some, List, [], ◌∷◌, arith, leb, nat_beq, Bool-cases, All,
}
use data_migration_tool.Prefix.{max_used_prefix, next_prefix}

-- every prefix in the rows is below the bound
abbrev pub Below : ℕ → List (Option ℕ) → Type 0
Below n rows = All (λ o. (p : ℕ) → o ≡ some p → p < n) rows

pub Below-weaken : (m n : ℕ) (rows : List (Option ℕ)) → m ≤ n → Below m rows → Below n rows
Below-weaken m n [] h b = tt
Below-weaken m n (o ∷ rows) h b =
    ((λ p e. let q : p < m = b.0 p e in omega arith), Below-weaken m n rows h b.1)

max_used_prefix-Below : (rows : List (Option ℕ)) → Below (max_used_prefix rows + 1) rows
unfolding max_used_prefix
max_used_prefix-Below [] = tt
max_used_prefix-Below (none ∷ rows) = ((λ p e. cc), max_used_prefix-Below rows)
max_used_prefix-Below (some q ∷ rows) = (
  (λ p e. let same : q ≡ p = cc in omega arith),
  Below-weaken (max_used_prefix rows + 1) (max q (max_used_prefix rows) + 1) rows (omega arith)
      (max_used_prefix-Below rows),
)

-- one of the runs has the prefix
unfoldable pub is_used : ℕ → List (Option ℕ) → Bool
is_used n [] = false
is_used n (none ∷ rows) = is_used n rows
is_used n (some p ∷ rows) = nat_beq p n || is_used n rows

is_used_here : (n q : ℕ) (rows : List (Option ℕ)) → q ≡ n → is_used n (some q ∷ rows) ≡ true
unfolding is_used
is_used_here n q rows e = ground arith

is_used_there :
    (m n q : ℕ) (rows : List (Option ℕ))
    → m ≡ n
    → is_used m rows ≡ true
    → is_used n (some q ∷ rows) ≡ true
unfolding is_used
is_used_there m n q rows e h =
    let k : is_used n rows ≡ true = ap (λ x. is_used x rows) (sym e) ∙ h in ground (arith, k)

-- the highest used prefix stands in the rows, if any does
max_used_prefix-used :
    (rows : List (Option ℕ))
    → (max_used_prefix rows ≡ 0) ⊎ (is_used (max_used_prefix rows) rows ≡ true)
unfolding max_used_prefix
max_used_prefix-used [] = inl refl
max_used_prefix-used (none ∷ rows) = elim (max_used_prefix-used rows) [
  | inl z ↦ inl z
  | inr u ↦ inr (unfold is_used in u)
]
max_used_prefix-used (some q ∷ rows) = elim (Bool-cases (leb (max_used_prefix rows) q)) [
  | inl h ↦ inr (is_used_here (max q (max_used_prefix rows)) q rows (ground arith))
  | inr h ↦ elim (max_used_prefix-used rows) [
    | inl z ↦ inl (ground arith)
    | inr u ↦ inr (
        is_used_there (max_used_prefix rows) (max q (max_used_prefix rows)) q rows (ground arith) u)
  ]
]

-- The prefix that a sync aims at is above every prefix used on either instance, and it wastes none:
-- it is 1, or the one before it is used.
pub next_prefix-fresh :
    (local_runs atp_runs : List (Option ℕ))
    → let n = next_prefix local_runs atp_runs in
      Below n local_runs
      × Below n atp_runs
      × ((n ≡ 1) ⊎ (is_used (n - 1) local_runs || is_used (n - 1) atp_runs ≡ true))
unfolding next_prefix
next_prefix-fresh local_runs atp_runs = (
  Below-weaken (max_used_prefix local_runs + 1) _ local_runs (omega arith)
      (max_used_prefix-Below local_runs),
  Below-weaken (max_used_prefix atp_runs + 1) _ atp_runs (omega arith)
      (max_used_prefix-Below atp_runs),
  elim (Bool-cases (leb (max_used_prefix atp_runs) (max_used_prefix local_runs))) [
    | inl h ↦
        let e : max (max_used_prefix local_runs) (max_used_prefix atp_runs) + 1 - 1
            ≡ max_used_prefix local_runs =
          ground arith in
        elim (max_used_prefix-used local_runs) [
          | inl z ↦ inl (ground arith)
          | inr u ↦ inr (rw e (ground arith))
        ]
    | inr h ↦
        let e : max (max_used_prefix local_runs) (max_used_prefix atp_runs) + 1 - 1
            ≡ max_used_prefix atp_runs =
          ground arith in
        elim (max_used_prefix-used atp_runs) [
          | inl z ↦ inl (ground arith)
          | inr u ↦ inr (rw e (ground arith))
        ]
  ],
)

pub data Target : Type 0 where
  local atp : Target
