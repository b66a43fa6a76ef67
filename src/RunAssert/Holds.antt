-- ===== src/RunAssert/Holds.antt =====
-- What exit code 0 of scripts/dmt_run_assert.py means.
use data_migration_tool.Prelude.{
  collect, is_empty-collect, both_empty, empty_both, is_empty-map, ◌<◌, ◌≡◌, refl, sym, ◌∙◌, ◌↔◌,
  ◌⊎◌, inl, inr, true, false, ◌||◌, Option, none, some, List, [], ◌∷◌, map, arith, nat_beq,
  Bool-cases, Option-cases, is_empty, keep, All, is_empty-keep-not,
}
use data_migration_tool.Prelude.Text.{Text, codes, text_eq}
use data_migration_tool.Scenario.Dict.{has}
use data_migration_tool.RunAssert.{
  Counts, Tile, errored, counted, View, unresolved, count_error, fan_out, catalog_issue,
  same_counts, displays, page52, page52_fails, page57, resolve_fails, drill_fail, drill_fails, sums,
  load_fail, load_fails, fails, exit_code,
}

same_counts_sound : (a b : Counts) → same_counts a b ≡ true → a ≡ b
unfolding same_counts
same_counts_sound a b e =
    let l : a.loaded ≡ b.loaded = ground arith in
    let f : a.failed ≡ b.failed = ground arith in let t : a.total ≡ b.total = ground arith in cc

none_kept :
    (f : Text → Option Counts) (ds : List Text)
    → (is_empty (keep (λ d. elim (f d) [ none ↦ true | some c ↦ false ]) ds) ≡ true)
      ↔ All (λ d. (c : Counts) × (f d ≡ some c)) ds
none_kept f [] = (λ e. tt, λ a. refl)
none_kept f (d ∷ ds) =
    let (to, from) = none_kept f ds in
    elim (Option-cases (f d)) [
      | inl n ↦ rw n ((λ e. absurd (cc)), (λ a. absurd (cc a.0.1)))
      | inr (c, n) ↦ rw n ((λ e. ((c, refl), to e)), (λ a. from a.1))
    ]

All-map :
    {A : Type 0} {P Q : A → Type 0} (f : (a : A) → P a → Q a) (xs : List A) → All P xs → All Q xs
All-map f [] a = tt
All-map f (x ∷ xs) a = (f x a.0, All-map f xs a.1)

module _ (v : View) where
  -- the tile has no rows, or opens a list with the same counts
  abbrev pub Opens : Text × Tile → Type 0
  Opens (disp, errored) = Unit
  Opens (disp, counted b) = (b.total ≡ 0) ⊎ (b ≡ page57 v disp)

  -- a finished code has records, and some record of a code with records is loaded
  pub record Loads (code : Text) (s : Counts) : Type 0 where
    pub done_has_records : text_eq (v.work_status code) (codes "DONE") ≡ true → 0 < s.total
    pub some_loaded : 0 < s.total → 0 < s.loaded

  pub record CodeHolds (code : Text) : Type 0 where
    pub resolved : has v.catalog code ≡ true
    pub all_counted : All (λ d. (c : Counts) × (v.tile_count code d ≡ some c)) (displays v code)
    pub tiles_open : All Opens (page52 v code)
    pub loads : Loads code (sums v (page52 v code))

  same_counts-eq : (a b : Counts) → (same_counts a b ≡ true) ↔ (a ≡ b)
  unfolding same_counts
  same_counts-eq a b = (λ e. same_counts_sound a b e, λ e. rw e (ground arith))

  drill_fail_test :
      (code disp : Text) (b : Counts)
      → is_empty (drill_fail v code (disp, counted b))
        ≡ (nat_beq b.total 0 || same_counts b (page57 v disp))
  unfolding drill_fail
  drill_fail_test code disp b =
      elim (Bool-cases (nat_beq b.total 0 || same_counts b (page57 v disp))) [
        | inl h ↦ rw h refl
        | inr h ↦ rw h (ground arith)
      ]

  opens :
      (code disp : Text) (b : Counts)
      → (nat_beq b.total 0 || same_counts b (page57 v disp)) ≡ true
      → (b.total ≡ 0) ⊎ (b ≡ page57 v disp)
  opens code disp b e = elim (Bool-cases (nat_beq b.total 0)) [
    | inl z ↦ inl (ground arith)
    | inr z ↦ inr (same_counts_sound b (page57 v disp) (rw z at e))
  ]

  drill_fail-Opens :
      (code : Text) (t : Text × Tile) → (is_empty (drill_fail v code t) ≡ true) ↔ Opens t
  unfolding drill_fail
  drill_fail-Opens code (disp, errored) = (λ e. tt, λ o. refl)
  drill_fail-Opens code (disp, counted b) = (
    λ e. opens code disp b (sym (drill_fail_test code disp b) ∙ e),
    λ o. drill_fail_test code disp b ∙ elim o [
      | inl z ↦ ground (arith, z)
      | inr z ↦
          let q : same_counts b (page57 v disp) ≡ true = (same_counts-eq b (page57 v disp)).1 z in
          ground (arith, q)
    ],
  )

  load_fail-Loads :
      (code : Text) (s : Counts) → (is_empty (load_fail v code s) ≡ true) ↔ Loads code s
  unfolding load_fail
  load_fail-Loads code s = (
    λ e. record { done_has_records = λ d. ground arith; some_loaded = λ p. ground arith },
    λ l. ground arith,
  )

  page52_fails-counted :
      (code : Text)
      → (is_empty (page52_fails v code) ≡ true)
        ↔ All (λ d. (c : Counts) × (v.tile_count code d ≡ some c)) (displays v code)
  unfolding page52_fails
  page52_fails-counted code =
      rw (is_empty-map (count_error code)) (none_kept (v.tile_count code) (displays v code))

  -- what the checks A, B and C report for one code
  code_CodeHolds :
      (code : Text)
      → has v.catalog code ≡ true
      → is_empty (drill_fails v code) ≡ true
      → is_empty (load_fails v code) ≡ true
      → CodeHolds code
  unfolding drill_fails load_fails
  code_CodeHolds code h d l =
      let (n, ds) = both_empty (page52_fails v code) _ (rw (h, drill_fails) at d) in
      let (m, ls) = both_empty (page52_fails v code) _ (rw (h, load_fails) at l) in
      record {
        resolved = h;
        all_counted = (page52_fails-counted code).0 n;
        tiles_open =
            All-map (λ t. (drill_fail-Opens code t).0) (page52 v code)
              ((is_empty-collect (drill_fail v code) (page52 v code)).0 ds);
        loads = (load_fail-Loads code (sums v (page52 v code))).0 ls;
      }

  CodeHolds-drill_fails : (code : Text) → CodeHolds code → is_empty (drill_fails v code) ≡ true
  unfolding drill_fails
  CodeHolds-drill_fails code c =
      rw (c.resolved, drill_fails)
        (empty_both (page52_fails v code) _ ((page52_fails-counted code).1 c.all_counted) (
          (is_empty-collect (drill_fail v code) (page52 v code)).1
            (All-map (λ t. (drill_fail-Opens code t).1) (page52 v code) c.tiles_open)))

  CodeHolds-load_fails : (code : Text) → CodeHolds code → is_empty (load_fails v code) ≡ true
  unfolding load_fails
  CodeHolds-load_fails code c =
      rw (c.resolved, load_fails)
        (empty_both (page52_fails v code) _ ((page52_fails-counted code).1 c.all_counted)
          ((load_fail-Loads code (sums v (page52 v code))).1 c.loads))

  All-CodeHolds :
      (cs : List Text)
      → All (λ c. has v.catalog c ≡ true) cs
      → All (λ c. is_empty (drill_fails v c) ≡ true) cs
      → All (λ c. is_empty (load_fails v c) ≡ true) cs
      → All CodeHolds cs
  All-CodeHolds [] h d l = tt
  All-CodeHolds (c ∷ cs) h d l = (code_CodeHolds c h.0 d.0 l.0, All-CodeHolds cs h.1 d.1 l.1)

  resolve_fails-has :
      (is_empty (resolve_fails v) ≡ true) ↔ All (λ c. has v.catalog c ≡ true) v.queue_codes
  unfolding resolve_fails
  resolve_fails-has = rw (is_empty-map unresolved) (is_empty-keep-not (has v.catalog) v.queue_codes)

  pub record RunHolds : Type 0 where
    pub codes_hold : All CodeHolds v.queue_codes
    pub one_row_each : is_empty v.detail_duplicates ≡ true
    pub catalog_healthy : is_empty v.catalog_issues ≡ true

  fails-RunHolds : is_empty (fails v) ≡ true → RunHolds
  unfolding fails
  fails-RunHolds e =
      let (abcd, five) = both_empty _ (map catalog_issue v.catalog_issues) e in
      let (abc, four) = both_empty _ (map fan_out v.detail_duplicates) abcd in
      let (ab, three) = both_empty _ (collect (load_fails v) v.queue_codes) abc in
      let (one, two) = both_empty (resolve_fails v) (collect (drill_fails v) v.queue_codes) ab in
      record {
        codes_hold =
            All-CodeHolds v.queue_codes (resolve_fails-has.0 one)
              ((is_empty-collect (drill_fails v) v.queue_codes).0 two)
              ((is_empty-collect (load_fails v) v.queue_codes).0 three);
        one_row_each = sym (is_empty-map fan_out v.detail_duplicates) ∙ four;
        catalog_healthy = sym (is_empty-map catalog_issue v.catalog_issues) ∙ five;
      }

  RunHolds-fails : RunHolds → is_empty (fails v) ≡ true
  unfolding fails
  RunHolds-fails r =
      let cs = v.queue_codes in
      empty_both _ _
        (empty_both _ _
          (empty_both _ _
            (empty_both (resolve_fails v) (collect (drill_fails v) cs)
              (resolve_fails-has.1 (All-map (λ c h. h.resolved) cs r.codes_hold))
              ((is_empty-collect (drill_fails v) cs).1
                (All-map CodeHolds-drill_fails cs r.codes_hold)))
            ((is_empty-collect (load_fails v) cs).1 (All-map CodeHolds-load_fails cs r.codes_hold)))
          (is_empty-map fan_out v.detail_duplicates ∙ r.one_row_each))
        (is_empty-map catalog_issue v.catalog_issues ∙ r.catalog_healthy)

  -- The exit code is 0 exactly when every code of the run is in the catalog, all its tiles could be counted
  -- and open a list with the same counts or have no rows, a finished code has records and a code with
  -- records has one that is loaded, no object has two detail rows and the catalog has no issue.
  pub exit_code-RunHolds : (exit_code v ≡ 0) ↔ RunHolds
  unfolding exit_code
  exit_code-RunHolds =
      (λ e. fails-RunHolds (ground arith), λ r. let q = RunHolds-fails r in ground (arith, q))
