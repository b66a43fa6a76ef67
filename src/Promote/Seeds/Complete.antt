-- ===== src/Promote/Seeds/Complete.antt =====
-- Which seeds a deploy runs.
use data_migration_tool.Prelude.{
  ◌≡◌, refl, ap, ◌∙◌, inl, inr, Bool, not, ◌&&◌, List, [], ◌∷◌, arith, Bool-cases, keep, any-append,
}
use data_migration_tool.Prelude.Text.{Text, text_eq, text_eq_sound}
use data_migration_tool.Promote.Seeds.{is_in, merge_order}

is_in-keep : (p : Text → Bool) (t : Text) (l : List Text) → is_in t (keep p l) ≡ (is_in t l && p t)
is_in-keep p t [] = refl
is_in-keep p t (u ∷ l) = elim (Bool-cases (text_eq u t)) [
  | inl e ↦
      let same : p u ≡ p t = ap p (text_eq_sound u t e) in ground (arith, is_in-keep p t l, e, same)
  | inr e ↦ ground (arith, is_in-keep p t l, e)
]

-- A seed is run exactly when it is present.
pub merge_order-is_in :
    (listed present : List Text) (t : Text) → is_in t (merge_order listed present) ≡ is_in t present
unfolding merge_order
merge_order-is_in listed present t =
    any-append (λ u. text_eq u t) (keep (λ s. is_in s present) listed) _
    ∙ rw
        (
          is_in-keep (λ s. is_in s present) t listed,
          is_in-keep (λ s. not (is_in s (keep (λ s. is_in s present) listed))) t present,
          is_in-keep (λ s. is_in s present) t listed,
        )
        (ground arith)
