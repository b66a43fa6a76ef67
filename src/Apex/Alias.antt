-- ===== src/Apex/Alias.antt =====
-- scripts/apex_deploy.py: the block that `_repoint_stable_alias` sends. The workspace is its applications
-- with their aliases.
use data_migration_tool.Prelude.{
  ℕ, ◌≡◌, refl, inl, inr, Bool, true, false, not, ◌&&◌, List, [], ◌∷◌, ◌++◌, nat_beq, if◌then◌else◌,
  Bool-cases, All,
}
use data_migration_tool.Prelude.Text.{Text, codes, text_eq, upper}
use data_migration_tool.Gate.Evidence.{decimal}

abbrev pub stable_alias : Text
stable_alias = codes "LIVEDMT2"

abbrev pub Workspace : Type 0
Workspace = List (ℕ × Text)

abbrev pub is_stable : Text → Bool
is_stable alias = text_eq (upper alias) stable_alias

-- the loop over the other applications that hold the alias
unfoldable pub free_others : ℕ → Workspace → Workspace
unfolding upper decimal text_eq
free_others app_id [] = []
free_others app_id ((id, alias) ∷ ws) =
    let rest = free_others app_id ws in
    (id, if is_stable alias && not (nat_beq id app_id) then codes "FREED_" ++ decimal id else alias)
    ∷ rest

unfoldable pub set_alias : ℕ → Text → Workspace → Workspace
set_alias app_id alias [] = []
set_alias app_id alias ((id, old) ∷ ws) =
    let rest = set_alias app_id alias ws in (id, if nat_beq id app_id then alias else old) ∷ rest

unfoldable pub repoint_stable_alias : ℕ → Workspace → Workspace
unfolding free_others set_alias
repoint_stable_alias app_id ws = set_alias app_id stable_alias (free_others app_id ws)

freed : (n : Text) → is_stable (codes "FREED_" ++ n) ≡ false
unfolding upper text_eq
freed n = refl

stable : is_stable stable_alias ≡ true
unfolding upper text_eq
stable = refl

-- the alias that an application ends up with
one_holder :
    (app_id id : ℕ) (alias : Text)
    → is_stable (
        if nat_beq id app_id
        then stable_alias
        else if is_stable alias && not (nat_beq id app_id)
        then codes "FREED_" ++ decimal id
        else alias)
      ≡ nat_beq id app_id
one_holder app_id id alias = elim (Bool-cases (nat_beq id app_id)) [
  | inl same ↦ rw same stable
  | inr other ↦ elim (Bool-cases (is_stable alias)) [
    | inl h ↦ rw (other, h) (freed (decimal id))
    | inr h ↦ rw (other, h) h
  ]
]

-- Afterwards an application holds the alias exactly when it is the imported one.
pub repoint_stable_alias-holders :
    (app_id : ℕ) (ws : Workspace)
    → All (λ a. is_stable a.1 ≡ nat_beq a.0 app_id) (repoint_stable_alias app_id ws)
unfolding repoint_stable_alias free_others set_alias
repoint_stable_alias-holders app_id [] = tt
repoint_stable_alias-holders app_id ((id, alias) ∷ ws) =
    (one_holder app_id id alias, repoint_stable_alias-holders app_id ws)
