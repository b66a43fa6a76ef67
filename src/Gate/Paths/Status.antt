-- ===== src/Gate/Paths/Status.antt =====
-- `git status --porcelain -z` read back, and when it makes the working tree dirty.
use data_migration_tool.Prelude.{
  ℕ, String, ◌≡◌, refl, ap, ◌∙◌, inl, inr, Bool, true, false, not, some, List, [], ◌∷◌, ◌++◌, map,
  arith, Bool-cases, Option-cases, is_empty, any, keep, All,
}
use data_migration_tool.Prelude.Text.{Text, z_output, split_on-z_output, Lacks}
use data_migration_tool.Gate.Paths.{
  is_code_path, is_moved, status_paths, code_changes, code_tree, Identity, Git, code_identity,
}

-- A change as git reports it: two status letters and a path, and the source path of a rename or a
-- copy.
pub data Change : Type 0 where
  plain : ℕ → ℕ → Text → Change
  moved : ℕ → ℕ → Text → Text → Change

abbrev pub line : ℕ → ℕ → Text → Text
line x y path = x ∷ y ∷ b' ' ∷ path

abbrev pub records : List Change → List Text
records [] = []
records (plain x y path ∷ cs) = line x y path ∷ records cs
records (moved x y path source ∷ cs) = line x y path ∷ source ∷ records cs

-- every path that the changes touch, with its status
abbrev pub touched : List Change → List (Text × Text)
touched [] = []
touched (plain x y path ∷ cs) = (x ∷ y ∷ [], path) ∷ touched cs
touched (moved x y path source ∷ cs) = (x ∷ y ∷ [], path) ∷ (x ∷ y ∷ [], source) ∷ touched cs

-- only renames and copies carry a source, which is not empty
abbrev pub IsReported : Change → Type 0
IsReported (plain x y path) = is_moved (x ∷ y ∷ []) ≡ false
IsReported (moved x y path source) = (is_moved (x ∷ y ∷ []) ≡ true) × (is_empty source ≡ false)

cons_plain :
    (x y : ℕ) (path : Text) (q : Text) (rest : List Text)
    → is_moved (x ∷ y ∷ []) ≡ false
    → status_paths (line x y path ∷ q ∷ rest) ≡ (x ∷ y ∷ [], path) ∷ status_paths (q ∷ rest)
unfolding status_paths
cons_plain x y path q rest h = rw h

cons_moved :
    (x y : ℕ) (path source : Text) (rest : List Text)
    → is_moved (x ∷ y ∷ []) ≡ true
    → is_empty source ≡ false
    → status_paths (line x y path ∷ source ∷ rest)
      ≡ (x ∷ y ∷ [], path) ∷ (x ∷ y ∷ [], source) ∷ status_paths rest
unfolding status_paths
cons_moved x y path source rest h k = rw (h, k)

plain_then :
    (x y : ℕ) (path : Text) (rest : List Text) (out : List (Text × Text))
    → is_moved (x ∷ y ∷ []) ≡ false
    → status_paths (rest ++ [] ∷ []) ≡ out
    → status_paths (line x y path ∷ (rest ++ [] ∷ [])) ≡ (x ∷ y ∷ [], path) ∷ out
plain_then x y path [] out h e = rw (cons_plain x y path [] [] h, e)
plain_then x y path (q ∷ rest) out h e = rw (cons_plain x y path q (rest ++ [] ∷ []) h, e)

pub status_paths-records :
    (cs : List Change) → All IsReported cs → status_paths (records cs ++ [] ∷ []) ≡ touched cs
status_paths-records [] h = unfold status_paths in refl
status_paths-records (plain x y path ∷ cs) h =
    plain_then x y path (records cs) (touched cs) h.0 (status_paths-records cs h.1)
status_paths-records (moved x y path source ∷ cs) h =
    cons_moved x y path source (records cs ++ [] ∷ []) h.0.0 h.0.1
    ∙ ap (λ (l : List (Text × Text)). (x ∷ y ∷ [], path) ∷ (x ∷ y ∷ [], source) ∷ l)
        (status_paths-records cs h.1)

is_empty-map {ℓ κ} :
    {A : Type ℓ} {B : Type κ} (f : A → B) (xs : List A) → is_empty (map f xs) ≡ is_empty xs
is_empty-map f [] = refl
is_empty-map f (x ∷ xs) = refl

is_empty-keep {ℓ} :
    {A : Type ℓ} (p : A → Bool) (xs : List A) → not (is_empty (keep p xs)) ≡ any p xs
is_empty-keep p [] = refl
is_empty-keep p (x ∷ xs) = elim (Bool-cases (p x)) [
  | inl h ↦ rw h
  | inr h ↦ rw h (is_empty-keep p xs)
]

dirty_flag :
    (sha256 : Text → String) (g : Git) (i : Identity)
    → code_identity sha256 g ≡ some i
    → i.dirty ≡ not (is_empty (code_changes g.status))
unfolding code_identity
dirty_flag sha256 g i h = elim (Option-cases (code_tree sha256 g.ls_tree)) [
  | inl e ↦ absurd (cc (rw (e, code_identity) at h))
  | inr (t, e) ↦ let h2 = rw (e, code_identity) at h in ground arith
]

-- The working tree is dirty exactly when a reported change touches a code path: its own path or,
-- for a rename or a copy, its source. Changes to other paths alone never make it dirty.
pub code_identity-dirty :
    (sha256 : Text → String) (g : Git) (i : Identity) (cs : List Change)
    → All IsReported cs
    → All (Lacks 0) (records cs)
    → g.status ≡ z_output (records cs)
    → code_identity sha256 g ≡ some i
    → i.dirty ≡ any (λ c. is_code_path c.1) (touched cs)
code_identity-dirty sha256 g i cs h l s e =
    dirty_flag sha256 g i e
    ∙ (unfold code_changes in
        rw (s, split_on-z_output (records cs) l, status_paths-records cs h, is_empty-map)
          (is_empty-keep (λ c. is_code_path c.1) (touched cs)))
