-- ===== src/Regression/Known/Accepted.antt =====
-- The verdict of a regression run and its exit code, against the owner's rule that nothing new may
-- fail, and against what the promotion gate reads in the verdict.
use data_migration_tool.Prelude.{
  ℕ, ◌+◌, ◌≡◌, refl, sym, ap, ◌∙◌, ◌↔◌, inl, inr, Bool, true, false, not, ◌||◌, Option, none, some,
  List, [], ◌∷◌, map, arith, Bool-cases, Option-cases, is_empty, any, keep, All,
}
use data_migration_tool.Prelude.Text.{Text}
use data_migration_tool.Regression.Issue.{IssueKey, issue_key}
use data_migration_tool.Regression.Known.{
  Kind, fail, review, Entry, entry_matches, is_regressed, matches_from, item_matches,
  classify_issues, before_colon, Result, exit_code_of, conclude,
}

-- an item with a stable key, about no regressed sub-object, that one of the entries covers
abbrev pub IsKnown : Kind → Option Text → List Text → List Entry → Text → Type 0
IsKnown kind prefix subs entries item =
    (k : IssueKey) × (issue_key item prefix ≡ some k)
    × (is_regressed subs k ≡ false)
    × (any (entry_matches kind k) entries ≡ true)

is_empty-matches_from :
    (i : ℕ) (kind : Kind) (k : IssueKey) (es : List Entry)
    → is_empty (matches_from i kind k es) ≡ not (any (entry_matches kind k) es)
unfolding matches_from
is_empty-matches_from i kind k [] = refl
is_empty-matches_from i kind k (e ∷ es) = ground (arith, is_empty-matches_from (i + 1) kind k es)

item_no_key :
    (kind : Kind) (prefix : Option Text) (subs : List Text) (entries : List Entry) (item : Text)
    → issue_key item prefix ≡ none
    → item_matches kind prefix subs entries item ≡ []
unfolding item_matches
item_no_key kind prefix subs entries item e = rw (e, item_matches) refl

item_key :
    (kind : Kind) (prefix : Option Text) (subs : List Text) (entries : List Entry) (item : Text)
    (k : IssueKey)
    → issue_key item prefix ≡ some k
    → is_empty (item_matches kind prefix subs entries item)
      ≡ (is_regressed subs k || not (any (entry_matches kind k) entries))
unfolding item_matches
item_key kind prefix subs entries item k e =
    rw (e, item_matches) (ground (arith, is_empty-matches_from 0 kind k entries))

item_matches-IsKnown :
    (kind : Kind) (prefix : Option Text) (subs : List Text) (entries : List Entry) (item : Text)
    → (is_empty (item_matches kind prefix subs entries item) ≡ false)
      ↔ IsKnown kind prefix subs entries item
item_matches-IsKnown kind prefix subs entries item = (
  (λ h. elim (Option-cases (issue_key item prefix)) [
    | inl e ↦ absurd (let q = item_no_key kind prefix subs entries item e in cc (h, ap is_empty q))
    | inr (k, e) ↦
        let q = item_key kind prefix subs entries item k e in
        (k, e, ground (arith, h, q), ground (arith, h, q))
  ]),
  (λ (k, e, r, m). let q = item_key kind prefix subs entries item k e in ground (arith, q, r, m)),
)

module _ (kind : Kind) (prefix : Option Text) (subs : List Text) (entries : List Entry) where
  classify_known :
      (it : Text) (items : List Text)
      → is_empty (item_matches kind prefix subs entries it) ≡ false
      → ((classify_issues kind prefix subs entries (it ∷ items)).known
          ≡ it ∷ (classify_issues kind prefix subs entries items).known)
        × ((classify_issues kind prefix subs entries (it ∷ items)).new
            ≡ (classify_issues kind prefix subs entries items).new)
  unfolding classify_issues
  classify_known it items e = (rw (e, classify_issues) refl, rw (e, classify_issues) refl)

  classify_new :
      (it : Text) (items : List Text)
      → is_empty (item_matches kind prefix subs entries it) ≡ true
      → ((classify_issues kind prefix subs entries (it ∷ items)).known
          ≡ (classify_issues kind prefix subs entries items).known)
        × ((classify_issues kind prefix subs entries (it ∷ items)).new
            ≡ it ∷ (classify_issues kind prefix subs entries items).new)
  unfolding classify_issues
  classify_new it items e = (rw (e, classify_issues) refl, rw (e, classify_issues) refl)

  -- The items are split in two and keep their order: an item is known if its key is stable, its
  -- sub-object did not regress and an entry covers it, and new otherwise.
  pub classify_issues-keep :
      (items : List Text)
      → ((classify_issues kind prefix subs entries items).known
          ≡ keep (λ it. not (is_empty (item_matches kind prefix subs entries it))) items)
        × ((classify_issues kind prefix subs entries items).new
            ≡ keep (λ it. is_empty (item_matches kind prefix subs entries it)) items)
  classify_issues-keep [] = unfold classify_issues in (refl, refl)
  classify_issues-keep (it ∷ items) =
      let (k, n) = classify_issues-keep items in
      elim (Bool-cases (is_empty (item_matches kind prefix subs entries it))) [
        | inl e ↦ let (a, b) = classify_new it items e in rw e (a ∙ k, b ∙ ap (λ l. it ∷ l) n)
        | inr e ↦ let (a, b) = classify_known it items e in rw e (a ∙ ap (λ l. it ∷ l) k, b ∙ n)
      ]

  no_new :
      (items : List Text)
      → (is_empty (classify_issues kind prefix subs entries items).new ≡ true)
        ↔ All (IsKnown kind prefix subs entries) items
  no_new [] = ((λ h. tt), (λ h. unfold classify_issues in refl))
  no_new (it ∷ items) =
      let (to, from) = no_new items in
      let (is, back) = item_matches-IsKnown kind prefix subs entries it in
      elim (Bool-cases (is_empty (item_matches kind prefix subs entries it))) [
        | inl e ↦
            let q = ap is_empty (classify_new it items e).1 in
            ((λ h. absurd (cc (h, q))), (λ m. absurd (cc (back m.0, e))))
        | inr e ↦
            let q = ap is_empty (classify_known it items e).1 in
            ((λ h. (is e, to (sym q ∙ h))), (λ m. q ∙ from m.1))
      ]

-- the items of a result that are known
abbrev pub AllKnown : Kind → List Entry → Result → List Text → Type 0
AllKnown kind entries r items =
    All (IsKnown kind r.prefix (map before_colon r.baseline_regressions) entries) items

exit_code_zero : (a b : Bool) → (exit_code_of a b ≡ 0) ↔ (a ≡ true) × (b ≡ true)
unfolding exit_code_of
exit_code_zero true true = ((λ h. (refl, refl)), (λ m. refl))
exit_code_zero true false = ((λ h. absurd (ground (arith, h))), (λ m. absurd (cc m.1)))
exit_code_zero false b = ((λ h. absurd (ground (arith, h))), (λ m. absurd (cc m.0)))

-- The script exits with 0 exactly when every failure and every review item is known.
pub conclude-AllKnown :
    (entries : List Entry) (r : Result)
    → ((conclude entries r).exit_code ≡ 0)
      ↔ AllKnown fail entries r r.failures × AllKnown review entries r r.review
unfolding conclude
conclude-AllKnown entries r =
    let subs = map before_colon r.baseline_regressions in
    let (tf, ff) = no_new fail r.prefix subs entries r.failures in
    let (tr, fr) = no_new review r.prefix subs entries r.review in
    let (tz, fz) =
      exit_code_zero (is_empty (classify_issues fail r.prefix subs entries r.failures).new)
        (is_empty (classify_issues review r.prefix subs entries r.review).new) in
    ((λ h. let z = tz h in (tf z.0, tr z.1)), (λ m. fz (ff m.0, fr m.1)))
