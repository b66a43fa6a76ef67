-- ===== src/Ratchet.antt =====
-- scripts/standards_known_violations.py: the list of known violations that the standards checkers
-- share, and the exit code that a checker takes from it. The JSON file is read; here are its entries.
pub mod Listed
pub mod Resolved
mod Tests
use data_migration_tool.Prelude.{
  ℕ, zero, suc, ◌+◌, ◌-◌, ◌*◌, ◌/◌, ◌%◌, ◌^◌, ◌≤◌, ◌<◌, max, min, String, ◌≡◌, refl, sym, ap, ◌∙◌,
  ◌≢◌, ◌↔◌, ◌⊎◌, inl, inr, Bool, true, false, not, ◌&&◌, ◌||◌, Option, none, some, List, [], ◌∷◌,
  ◌++◌, map, arith, ◌==◌, starts_with, eq_iff, eq_refl, ltb, leb, nat_beq, if◌then◌else◌, ltb→lt,
  lt→ltb, leb→le, Bool-cases, Option-cases, &&-true, length, take, is_empty, any, all, keep, All,
  length-append, keep-append, any-append, is_empty-keep-not, add-one,
}
use data_migration_tool.Prelude.Text.{Text, text_eq}
use data_migration_tool.Regression.Rows.Counts.{sorted_items}
use data_migration_tool.Scenario.Dict.{Dict, look, has, put}

-- an entry of "violations", with the fields that are used
pub record Entry : Type 0 where
  pub checker : Option Text
  pub key : Option Text
  pub backlog : Option ℕ

-- a found violation with its message
abbrev pub Found : Type 0
Found = Text × Text

abbrev pub is_text : Text → Option Text → Bool
is_text t none = false
is_text t (some u) = text_eq u t

-- out[e["key"]] = e; none is the KeyError
unfoldable pub put_keyed : Option Text → Entry → Dict Entry → Option (Dict Entry)
put_keyed none e out = none
put_keyed (some k) e out = some (put k e out)

-- an entry, if it is the checker's
unfoldable pub add_entry : Text → Entry → Dict Entry → Option (Dict Entry)
unfolding put_keyed
add_entry checker e out = if is_text checker e.checker then put_keyed e.key e out else some out

unfoldable pub load_onto : Text → List Entry → Dict Entry → Option (Dict Entry)
unfolding add_entry
load_onto checker [] out = some out
load_onto checker (e ∷ es) out = elim (add_entry checker e out) [
  | none ↦ none
  | some d ↦ load_onto checker es d
]

-- the entries of the file, if it is there
unfoldable pub load : Text → Option (List Entry) → Option (Dict Entry)
unfolding load_onto
load checker none = some []
load checker (some es) = load_onto checker es []

pub record Groups : Type 0 where
  pub new : List Found
  pub known : List (Found × Entry)
  pub resolved : List Entry

unfoldable pub sort_found : Dict Entry → List Found → Groups → Groups
sort_found known_map [] g = g
sort_found known_map (f ∷ fs) g = sort_found known_map fs (elim (look known_map f.0) [
  | none ↦ record g { new = g.new ++ f ∷ [] }
  | some e ↦ record g { known = g.known ++ (f, e) ∷ [] }
])

abbrev pub is_seen : List Found → Text → Bool
is_seen found k = any (λ f. text_eq f.0 k) found

-- the listed entries that are not among the seen ones
unfoldable pub left_over : Dict Entry → List Found → List Entry
left_over known_map found =
    map (λ x. x.1) (keep (λ x. not (is_seen found x.0)) (sorted_items known_map))

unfoldable pub partition : Text → Option (List Entry) → List Found → Option Groups
unfolding load sort_found left_over
partition checker file found = elim (load checker file) [
  | none ↦ none
  | some d ↦
      some (sort_found d found (record { new = []; known = []; resolved = left_over d found }))
]

-- the exit code
unfoldable pub report : Text → Option (List Entry) → List Found → Option ℕ
unfolding partition
report checker file found = elim (partition checker file found) [
  | none ↦ none
  | some g ↦ some (if is_empty g.new then 0 else 1)
]
