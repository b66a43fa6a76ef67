-- ===== src/Golden/Compare/Same.antt =====
-- What exit code 0 of test/golden/compare_fbdi.py means.
use data_migration_tool.Prelude.{
  both_empty, empty_both, is_empty-map, ◌≡◌, refl, sym, ap, ◌∙◌, ◌↔◌, ◌⊎◌, inl, inr, Bool, true,
  false, some, List, [], ◌∷◌, ◌++◌, map, arith, Bool-cases, is_empty, any, All, is_empty-keep-not,
}
use data_migration_tool.Prelude.Text.{Text, text_eq, text_eq_sound, text_eq_refl}
use data_migration_tool.Golden.Csv.{Codec, Records, Parsed, parsed, problem}
use data_migration_tool.Golden.Diff.{diff_records}
use data_migration_tool.Golden.Diff.Equal.{diff_records_iff}
use data_migration_tool.Golden.Compare.{
  MemberSpec, Zip, LocalRun, Finding, undeclared_golden, undeclared_generated, differs, normalized,
  parse_member, serialize_member, compare_records, compare_parsed, is_in, compare_member,
  compare_members, insert_name, sorted_set, undeclared, findings, exit_code, main,
}

-- the map declares the name
abbrev pub declares : List (Text × MemberSpec) → Text → Bool
declares ms n = any (λ m. text_eq m.0 n) ms

insert_name-ne : (n : Text) (ns : List Text) → is_empty (insert_name n ns) ≡ false
unfolding insert_name
insert_name-ne n [] = refl
insert_name-ne n (m ∷ ns) = ground arith

is_empty-sorted_set : (ns : List Text) → is_empty (sorted_set ns) ≡ is_empty ns
unfolding sorted_set
is_empty-sorted_set [] = refl
is_empty-sorted_set (n ∷ ns) = insert_name-ne n (sorted_set ns)

undeclared-declares :
    (ms : List (Text × MemberSpec)) (ns : List Text)
    → (is_empty (undeclared ms ns) ≡ true) ↔ All (λ n. declares ms n ≡ true) ns
unfolding undeclared
undeclared-declares ms ns = rw is_empty-sorted_set (is_empty-keep-not (declares ms) ns)

module _ (c : Codec) (run : LocalRun) where
  -- both sides are read, and are written alike once tokens and dates are out of the way
  pub record SameNormalized (m : MemberSpec) (golden generated : Text) : Type 0 where
    pub golden_records : Records
    pub generated_records : Records
    pub golden_parsed : parse_member c m golden ≡ parsed golden_records
    pub generated_parsed : parse_member c m generated ≡ parsed generated_records
    pub written_alike :
        let n = normalized run m golden_records generated_records in
        serialize_member c m n.0 ≡ serialize_member c m n.1

  -- the member is in both zips, with the same bytes or alike after the declared normalization
  pub record SameMember (g l : Zip) (name : Text) (m : MemberSpec) : Type 0 where
    pub in_golden : is_in name g.names ≡ true
    pub in_generated : is_in name l.names ≡ true
    pub alike : (g.read name ≡ l.read name) ⊎ SameNormalized m (g.read name) (l.read name)

  -- what is written differently is reported, whatever the length of the report
  compare_records-written :
      (name : Text) (m : MemberSpec) (gs ls : Records)
      → is_empty (compare_records c run name m gs ls) ≡ true
      → serialize_member c m (normalized run m gs ls).0
        ≡ serialize_member c m (normalized run m gs ls).1
  unfolding compare_records
  compare_records-written name m gs ls e =
      let n = normalized run m gs ls in
      elim (Bool-cases (text_eq (serialize_member c m n.0) (serialize_member c m n.1))) [
        | inl h ↦ text_eq_sound _ _ h
        | inr h ↦
            let q = rw (h, compare_records) at e in
            let same =
              (diff_records_iff 20 n.0 n.1).0
                (sym (is_empty-map (differs name) (diff_records 20 n.0 n.1)) ∙ q) in
            ap (serialize_member c m) same
      ]

  compare_parsed-SameNormalized :
      (name : Text) (m : MemberSpec) (g l : Text) (p q : Parsed)
      → parse_member c m g ≡ p
      → parse_member c m l ≡ q
      → is_empty (compare_parsed c run name m p q) ≡ true
      → SameNormalized m g l
  unfolding compare_parsed
  compare_parsed-SameNormalized name m g l (parsed gs) (parsed ls) a b e = record {
    golden_records = gs;
    generated_records = ls;
    golden_parsed = a;
    generated_parsed = b;
    written_alike = compare_records-written name m gs ls e;
  }
  compare_parsed-SameNormalized name m g l (problem p) q a b e = absurd (cc)
  compare_parsed-SameNormalized name m g l (parsed gs) (problem p) a b e = absurd (cc)

  SameNormalized-compare_parsed :
      (name : Text) (m : MemberSpec) (g l : Text)
      → SameNormalized m g l
      → is_empty (compare_parsed c run name m (parse_member c m g) (parse_member c m l)) ≡ true
  unfolding compare_parsed compare_records
  SameNormalized-compare_parsed name m g l s =
      rw
        (
          s.golden_parsed, s.generated_parsed, compare_parsed, compare_records, s.written_alike,
          text_eq_refl,
        )
        refl

  compare_member-SameMember :
      (g l : Zip) (name : Text) (m : MemberSpec)
      → is_empty (compare_member c run g l name m) ≡ true
      → SameMember g l name m
  unfolding compare_member
  compare_member-SameMember g l name m e = elim (Bool-cases (is_in name g.names)) [
    | inr h ↦ absurd (ground arith)
    | inl h ↦ elim (Bool-cases (is_in name l.names)) [
      | inr k ↦ absurd (ground arith)
      | inl k ↦ elim (Bool-cases (text_eq (g.read name) (l.read name))) [
        | inl r ↦ record { in_golden = h; in_generated = k; alike = inl (text_eq_sound _ _ r) }
        | inr r ↦
            let q = rw (h, compare_member, k, r) at e in
            record {
              in_golden = h;
              in_generated = k;
              alike = inr (compare_parsed-SameNormalized name m _ _ _ _ refl refl q);
            }
      ]
    ]
  ]

  SameMember-compare_member :
      (g l : Zip) (name : Text) (m : MemberSpec)
      → SameMember g l name m
      → is_empty (compare_member c run g l name m) ≡ true
  unfolding compare_member
  SameMember-compare_member g l name m s = elim (Bool-cases (text_eq (g.read name) (l.read name))) [
    | inl r ↦ rw (s.in_golden, compare_member, s.in_generated, r) refl
    | inr r ↦
        rw (s.in_golden, compare_member, s.in_generated, r)
          (elim s.alike [
            | inl same ↦ absurd (cc (text_eq_refl (l.read name)))
            | inr n ↦ SameNormalized-compare_parsed name m _ _ n
          ])
  ]

  compare_members-SameMember :
      (g l : Zip) (ms : List (Text × MemberSpec))
      → (is_empty (compare_members c run g l ms) ≡ true) ↔ All (λ m. SameMember g l m.0 m.1) ms
  unfolding compare_members
  compare_members-SameMember g l [] = (λ e. tt, λ a. refl)
  compare_members-SameMember g l ((name, m) ∷ ms) =
      let (to, from) = compare_members-SameMember g l ms in
      (
        λ e.
            let (a, b) = both_empty (compare_member c run g l name m) _ e in
            (compare_member-SameMember g l name m a, to b),
        λ a.
            empty_both (compare_member c run g l name m) _
              (SameMember-compare_member g l name m a.0) (from a.1),
      )

  -- Every name in either zip is declared, and every declared member is the same.
  pub record SameZips (g l : Zip) (ms : List (Text × MemberSpec)) : Type 0 where
    pub golden_declared : All (λ n. declares ms n ≡ true) g.names
    pub generated_declared : All (λ n. declares ms n ≡ true) l.names
    pub members_same : All (λ m. SameMember g l m.0 m.1) ms

  findings-SameZips :
      (g l : Zip) (ms : List (Text × MemberSpec))
      → is_empty (findings c run g l ms) ≡ true
      → SameZips g l ms
  unfolding findings
  findings-SameZips g l ms e =
      let (ab, x) =
        both_empty
          (map undeclared_golden (undeclared ms g.names)
            ++ map undeclared_generated (undeclared ms l.names))
          _ e in
      let (a, b) = both_empty (map undeclared_golden (undeclared ms g.names)) _ ab in
      record {
        golden_declared =
            (undeclared-declares ms g.names).0 (sym (is_empty-map undeclared_golden _) ∙ a);
        generated_declared =
            (undeclared-declares ms l.names).0 (sym (is_empty-map undeclared_generated _) ∙ b);
        members_same = (compare_members-SameMember g l ms).0 x;
      }

  SameZips-findings :
      (g l : Zip) (ms : List (Text × MemberSpec))
      → SameZips g l ms
      → is_empty (findings c run g l ms) ≡ true
  unfolding findings
  SameZips-findings g l ms s =
      empty_both _ _
        (empty_both _ _
          (is_empty-map undeclared_golden _ ∙ (undeclared-declares ms g.names).1 s.golden_declared)
          (is_empty-map undeclared_generated _
            ∙ (undeclared-declares ms l.names).1 s.generated_declared))
        ((compare_members-SameMember g l ms).1 s.members_same)

  exit_code_zero : (fs : List Finding) → (exit_code (some fs) ≡ 0) ↔ (is_empty fs ≡ true)
  unfolding exit_code
  exit_code_zero [] = (λ e. refl, λ e. refl)
  exit_code_zero (d ∷ ds) = (λ e. absurd (omega (arith, e)), λ e. absurd (cc))

  -- With both zips and the object's map there, the exit code is 0 exactly when each zip has declared members
  -- only and every declared member is in both, with the same bytes or written alike after the declared
  -- normalization.
  pub main-SameZips :
      (g l : Zip) (ms : List (Text × MemberSpec))
      → (main c run (some g) (some l) (some ms) ≡ 0) ↔ SameZips g l ms
  unfolding main
  main-SameZips g l ms =
      let (to, from) = exit_code_zero (findings c run g l ms) in
      (λ e. findings-SameZips g l ms (to e), λ s. from (SameZips-findings g l ms s))
