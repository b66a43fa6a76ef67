-- ===== src/Ratchet/Tests.antt =====
-- Two checkers with one list: a known violation, a fixed one and an entry of the other checker.
use data_migration_tool.Prelude.{ℕ, ◌≡◌, refl, ◌↔◌, true, Option, some, List, [], ◌∷◌, any, all}
use data_migration_tool.Prelude.Text.{Text, codes, text_eq}
use data_migration_tool.Regression.Rows.Counts.{sorted_items, insert_named, text_le}
use data_migration_tool.Scenario.Dict.{look, put}
use data_migration_tool.Ratchet.{
  Entry, Found, Groups, put_keyed, add_entry, load_onto, load, sort_found, left_over, partition,
  report,
}
use data_migration_tool.Ratchet.Listed.{lists, is_keyed, entries_of, report-Listed}

abbrev entry : Text → Text → ℕ → Entry
entry checker key n = record { checker = some checker; key = some key; backlog = some n }

abbrev file : Option (List Entry)
file = some (
    entry (codes "bip") (codes "NINE|Taxes") 130
    ∷ entry (codes "sweep") (codes "SWEEP|Banks") 7
    ∷ entry (codes "bip") (codes "NINE|Banks") 130
    ∷ [])

abbrev found : List Found
found = (codes "NINE|Taxes", codes "m") ∷ []

abbrev groups : Groups
groups = record {
  new = [];
  known = ((codes "NINE|Taxes", codes "m"), entry (codes "bip") (codes "NINE|Taxes") 130) ∷ [];
  resolved = entry (codes "bip") (codes "NINE|Banks") 130 ∷ [];
}

grouped : partition (codes "bip") file found ≡ some groups
unfolding partition load load_onto add_entry put_keyed put look sort_found left_over sorted_items
    insert_named text_le text_eq
grouped = refl

other_checker : report (codes "sweep") file found ≡ some 1
unfolding report partition load load_onto add_entry put_keyed put look sort_found text_eq
other_checker = refl

report-Listed_example :
    (report (codes "bip") file found ≡ some 0)
    ↔ (all (is_keyed (codes "bip")) (entries_of file) ≡ true)
      × (all (λ f. any (lists (codes "bip") f.0) (entries_of file)) found ≡ true)
report-Listed_example = report-Listed (codes "bip") file found
