-- ===== src/Ratchet/Resolved.antt =====
-- scripts/standards_known_violations.py: the entries that are reported as resolved.
use data_migration_tool.Prelude.{
  ◌≡◌, refl, ap, ◌∙◌, inl, inr, Bool, true, not, ◌&&◌, ◌||◌, Option, none, some, List, [], ◌∷◌,
  ◌++◌, map, arith, Bool-cases, Option-cases, any, all, keep,
}
use data_migration_tool.Prelude.Text.{Text, text_eq, text_eq_sound, text_eq_refl}
use data_migration_tool.Regression.Rows.Counts.{sorted_items}
use data_migration_tool.Regression.Baseline.NotWorse.{any-sorted_items}
use data_migration_tool.Scenario.Dict.{Dict, look, has, put}
use data_migration_tool.Ratchet.{
  Entry, Found, Groups, is_text, is_seen, put_keyed, add_entry, load_onto, sort_found, left_over,
  partition,
}
use data_migration_tool.Ratchet.Listed.{lists, entries_of, load-entries, has-load_onto}

-- each entry stands under its key
unfoldable pub in_place : Text × Entry → Bool
in_place (k, e) = is_text k e.key

in_place-put :
    (k : Text) (e : Entry) (d : Dict Entry)
    → is_text k e.key ≡ true
    → all in_place d ≡ true
    → all in_place (put k e d) ≡ true
unfolding put in_place
in_place-put k e [] own h = ground (arith, own)
in_place-put k e ((j, b) ∷ d) own h = ground (arith, own, in_place-put k e d own)

any-keep : {A : Type 0} (p q : A → Bool) (l : List A) → any q (keep p l) ≡ any (λ x. p x && q x) l
any-keep p q [] = refl
any-keep p q (x ∷ l) = ground (arith, any-keep p q l)

any-map :
    {A B : Type 0} (f : A → B) (q : B → Bool) (l : List A) → any q (map f l) ≡ any (λ x. q (f x)) l
any-map f q [] = refl
any-map f q (x ∷ l) = ap (λ b. q (f x) || b) (any-map f q l)

any-left_over :
    (k : Text) (d : Dict Entry) (found : List Found)
    → any (λ e. is_text k e.key) (left_over d found)
      ≡ any (λ x. not (is_seen found x.0) && is_text k (Entry.key x.1)) d
unfolding left_over
any-left_over k d found =
    any-map (λ x. x.1) (λ e. is_text k e.key) (keep (λ x. not (is_seen found x.0)) (sorted_items d))
    ∙ any-keep (λ x. not (is_seen found x.0)) (λ x. is_text k (Entry.key x.1)) (sorted_items d)
    ∙ any-sorted_items (λ x. not (is_seen found x.0) && is_text k (Entry.key x.1)) d

-- an entry in its place is named by its key
named_alike : (k j : Text) (e : Entry) → is_text j e.key ≡ true → is_text k e.key ≡ text_eq j k
named_alike k j e h = named (e.key) h
  where
    named : (o : Option Text) → is_text j o ≡ true → is_text k o ≡ text_eq j k
    named none p = absurd (cc)
    named (some u) p = let q : u ≡ j = text_eq_sound u j p in rw q refl

any-in_place :
    (k : Text) (d : Dict Entry) (found : List Found)
    → all in_place d ≡ true
    → any (λ x. not (is_seen found x.0) && is_text k (Entry.key x.1)) d
      ≡ (has d k && not (is_seen found k))
unfolding in_place has
any-in_place k [] found h = refl
any-in_place k ((j, e) ∷ d) found h =
    let same : is_text k e.key ≡ text_eq j k = named_alike k j e (ground arith) in
    let rest = any-in_place k d found (ground arith) in
    elim (Bool-cases (text_eq j k)) [
      | inl p ↦
          let q : j ≡ k = text_eq_sound j k p in
          let w : is_seen found j ≡ is_seen found k = ap (is_seen found) q in
          ground (arith, same, rest, p, w)
      | inr p ↦ ground (arith, same, rest, p)
    ]

put_keyed-in_place :
    (o : Option Text) (e : Entry) (out d : Dict Entry)
    → e.key ≡ o
    → put_keyed o e out ≡ some d
    → all in_place out ≡ true
    → all in_place d ≡ true
unfolding put_keyed
put_keyed-in_place none e out d same h old = absurd (cc)
put_keyed-in_place (some k) e out d same h old =
    let q : d ≡ put k e out = cc in
    let own : is_text k e.key ≡ true = ap (is_text k) same ∙ text_eq_refl k in
    rw q (in_place-put k e out own old)

load_onto-in_place :
    (checker : Text) (es : List Entry) (out d : Dict Entry)
    → load_onto checker es out ≡ some d
    → all in_place out ≡ true
    → all in_place d ≡ true
unfolding load_onto add_entry
load_onto-in_place checker [] out d h old = let q : d ≡ out = cc in rw q old
load_onto-in_place checker (e ∷ es) out d h old = elim (Bool-cases (is_text checker e.checker)) [
  | inr g ↦
      let z : load_onto checker es out ≡ some d = rw (load_onto, add_entry, g) at h in
      load_onto-in_place checker es out d z old
  | inl g ↦ elim (Option-cases (put_keyed e.key e out)) [
    | inl p ↦ absurd (let z : none ≡ some d = rw (load_onto, add_entry, g, p) at h in cc)
    | inr (m, p) ↦
        let z : load_onto checker es m ≡ some d = rw (load_onto, add_entry, g, p) at h in
        load_onto-in_place checker es m d z (put_keyed-in_place e.key e out m refl p old)
  ]
]

sort_found-resolved :
    (d : Dict Entry) (fs : List Found) (g : Groups)
    → Groups.resolved (sort_found d fs g) ≡ g.resolved
unfolding sort_found
sort_found-resolved d [] g = refl
sort_found-resolved d (f ∷ fs) g = elim (Option-cases (look d f.0)) [
  | inl h ↦ rw (h, sort_found-resolved d fs (record g { new = g.new ++ f ∷ [] })) refl
  | inr (e, h) ↦ rw (h, sort_found-resolved d fs (record g { known = g.known ++ (f, e) ∷ [] })) refl
]

-- The entries for a key that are reported as resolved: there is one exactly if the checker has an
-- entry for the key and did not find it.
pub partition-resolved :
    (checker : Text) (file : Option (List Entry)) (found : List Found) (g : Groups) (k : Text)
    → partition checker file found ≡ some g
    → any (λ e. is_text k e.key) g.resolved
      ≡ (any (lists checker k) (entries_of file) && not (is_seen found k))
unfolding partition has
partition-resolved checker file found g k h =
    elim (Option-cases (load_onto checker (entries_of file) [])) [
      | inl n ↦
          absurd (let z : none ≡ some g = rw (partition, load-entries checker file, n) at h in cc)
      | inr (d, n) ↦
          let start : Groups = record { new = []; known = []; resolved = left_over d found } in
          let z : some (sort_found d found start) ≡ some g =
            rw (partition, load-entries checker file, n) at h in
          let q : g ≡ sort_found d found start = cc in
          let left : g.resolved ≡ left_over d found =
            ap (λ (x : Groups). x.resolved) q ∙ sort_found-resolved d found start in
          let placed = load_onto-in_place checker (entries_of file) [] d n refl in
          let listed : has d k ≡ any (lists checker k) (entries_of file) =
            has-load_onto checker (entries_of file) [] d k n in
          ap (any (λ e. is_text k e.key)) left
          ∙ any-left_over k d found
          ∙ any-in_place k d found placed
          ∙ ap (λ b. b && not (is_seen found k)) listed
    ]
