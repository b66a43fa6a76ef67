-- ===== src/Golden/Csv/RoundTrip.antt =====
-- Reading back what `serialize` writes: the loop over one field, one record, the file.
use mathlib.Core.List.{append_assoc, append-nil}
use data_migration_tool.Prelude.{
  ℕ, ◌≡◌, refl, ◌∙◌, ◌↔◌, inl, inr, Bool, true, false, some, List, [], ◌∷◌, ◌++◌, arith, nat_beq,
  Bool-cases, Option-cases, is_empty, All,
}
use data_migration_tool.Prelude.Text.{Text, text_eq, text_eq_sound, text_eq_refl, join_with}
use data_migration_tool.Golden.Csv.{
  Codec, IsCodec, Records, parsed, State, next_is, step, scan, doubled, quote, record_line,
  terminator_of, join_lines, serialize, start, checked, parse_records,
}

abbrev inside : List Text → Records → Text → State
inside fields records field = record {
  in_quotes = true;
  field = field;
  fields = fields;
  records = records;
  skip = false;
}

abbrev outside : List Text → Records → Text → State
outside fields records field = record {
  in_quotes = false;
  field = field;
  fields = fields;
  records = records;
  skip = false;
}

module _ (crlf : Bool) (fs : List Text) (rs : Records) where
  scan_plain :
      (c : ℕ) (t f : Text)
      → nat_beq c b'"' ≡ false
      → scan crlf (c ∷ t) (inside fs rs f) ≡ scan crlf t (inside fs rs (f ++ c ∷ []))
  unfolding scan step
  scan_plain c t f h = rw h refl

  scan_doubled :
      (t f : Text)
      → scan crlf (b'"' ∷ b'"' ∷ t) (inside fs rs f) ≡ scan crlf t (inside fs rs (f ++ b'"' ∷ []))
  unfolding scan step
  scan_doubled t f = refl

  scan_closed :
      (t f : Text)
      → next_is b'"' t ≡ false
      → scan crlf (b'"' ∷ t) (inside fs rs f) ≡ scan crlf t (outside fs rs f)
  unfolding scan step
  scan_closed t f h = rw h refl

  scan-doubled :
      (f t g : Text)
      → next_is b'"' t ≡ false
      → scan crlf (doubled f ++ b'"' ∷ t) (inside fs rs g) ≡ scan crlf t (outside fs rs (g ++ f))
  unfolding doubled
  scan-doubled [] t g h = rw append-nil (scan_closed t g h)
  scan-doubled (c ∷ f) t g h = elim (Bool-cases (nat_beq c b'"')) [
    | inl q ↦
        let same : c ≡ b'"' = ground arith in
        rw (q, doubled) (scan_doubled _ g ∙ scan-doubled f t _ h ∙ rw (append_assoc, same) refl)
    | inr q ↦ rw (q, doubled) (scan_plain c _ g q ∙ scan-doubled f t _ h ∙ rw append_assoc refl)
  ]

  scan-quote :
      (f t : Text)
      → next_is b'"' t ≡ false
      → scan crlf (quote f ++ t) (outside fs rs []) ≡ scan crlf t (outside fs rs f)
  unfolding quote scan step
  scan-quote f t h = rw append_assoc (scan-doubled f t [] h)

  scan_comma :
      (t f : Text)
      → scan crlf (b',' ∷ t) (outside fs rs f) ≡ scan crlf t (outside (fs ++ f ∷ []) rs [])
  unfolding scan step
  scan_comma t f = refl

scan_terminator :
    (crlf : Bool) (fs : List Text) (rs : Records) (t f : Text)
    → scan crlf (terminator_of crlf ++ t) (outside fs rs f)
      ≡ scan crlf t (outside [] (rs ++ (fs ++ f ∷ []) ∷ []) [])
unfolding scan step
scan_terminator true fs rs t f = refl
scan_terminator false fs rs t f = refl

terminator-next : (crlf : Bool) (t : Text) → next_is b'"' (terminator_of crlf ++ t) ≡ false
terminator-next true t = refl
terminator-next false t = refl

-- one line and its terminator are one record
scan-record_line :
    (crlf : Bool) (fs : List Text) (rs : Records) (f : Text) (more : List Text) (t : Text)
    → scan crlf (record_line (f ∷ more) ++ (terminator_of crlf ++ t)) (outside fs rs [])
      ≡ scan crlf t (outside [] (rs ++ (fs ++ f ∷ more) ∷ []) [])
unfolding record_line join_with
scan-record_line crlf fs rs f [] t =
    scan-quote crlf fs rs f _ (terminator-next crlf t) ∙ scan_terminator crlf fs rs t f
scan-record_line crlf fs rs f (g ∷ more) t = rw append_assoc (
    scan-quote crlf fs rs f _ refl
    ∙ scan_comma crlf fs rs _ f
    ∙ scan-record_line crlf (fs ++ f ∷ []) rs g more t
    ∙ rw append_assoc refl)

serialize-cons :
    (crlf : Bool) (r : List Text) (rs : Records)
    → serialize crlf (r ∷ rs) ≡ record_line r ++ (terminator_of crlf ++ serialize crlf rs)
unfolding serialize join_lines
serialize-cons crlf r [] = rw append-nil refl
serialize-cons crlf r (q ∷ rs) = rw (append_assoc, append_assoc) refl

-- a record has at least one field
abbrev pub HasFields : List Text → Type 0
HasFields r = is_empty r ≡ false

scan-serialize :
    (crlf : Bool) (rs done : Records)
    → All HasFields rs
    → scan crlf (serialize crlf rs) (outside [] done []) ≡ some (outside [] (done ++ rs) [])
scan-serialize crlf [] done h = rw append-nil (unfold scan serialize in refl)
scan-serialize crlf ([] ∷ rs) done h = absurd (cc)
scan-serialize crlf ((f ∷ more) ∷ rs) done h = rw serialize-cons (
    scan-record_line crlf [] done f more (serialize crlf rs)
    ∙ scan-serialize crlf rs (done ++ (f ∷ more) ∷ []) h.1
    ∙ rw append_assoc refl)

All-snoc :
    (rs : Records) (r : List Text) → All HasFields rs → HasFields r → All HasFields (rs ++ r ∷ [])
All-snoc [] r a h = (h, tt)
All-snoc (q ∷ rs) r a h = (a.0, All-snoc rs r a.1 h)

HasFields-snoc : (fs : List Text) (f : Text) → HasFields (fs ++ f ∷ [])
HasFields-snoc [] f = refl
HasFields-snoc (g ∷ fs) f = refl

step-HasFields :
    (crlf : Bool) (c : ℕ) (t : Text) (s s' : State)
    → All HasFields s.records
    → step crlf c t s ≡ some s'
    → All HasFields s'.records
unfolding step
step-HasFields crlf c t s s' a e =
    ground
      (arith, All-snoc s.records (s.fields ++ s.field ∷ []) a (HasFields-snoc s.fields s.field))

scan-HasFields :
    (crlf : Bool) (t : Text) (s s' : State)
    → All HasFields s.records
    → scan crlf t s ≡ some s'
    → All HasFields s'.records
unfolding scan
scan-HasFields crlf [] s s' a e = let q : s ≡ s' = cc in rw q at a
scan-HasFields crlf (c ∷ t) s s' a e = elim (Option-cases (step crlf c t s)) [
  | inl n ↦ absurd (cc)
  | inr (u, n) ↦ scan-HasFields crlf t u s' (step-HasFields crlf c t s u a n) (rw (n, scan) at e)
]

module _ (c : Codec) (law : IsCodec c) where
  parse_records-serialize :
      (crlf : Bool) (rs : Records)
      → All HasFields rs
      → parse_records c crlf (c.encode (serialize crlf rs)) ≡ parsed rs
  unfolding parse_records checked
  parse_records-serialize crlf rs h =
      rw
        (
          law.decode_encode (serialize crlf rs),
          parse_records,
          scan-serialize crlf rs [] h,
          text_eq_refl,
        )
        refl

  checked_parsed :
      (crlf : Bool) (b : Text) (s : State) (rs : Records)
      → checked c crlf b (some s) ≡ parsed rs
      → (s.records ≡ rs) × (c.encode (serialize crlf rs) ≡ b)
  unfolding checked
  checked_parsed crlf b s rs e =
      elim (Bool-cases (text_eq (c.encode (serialize crlf s.records)) b)) [
        | inl q ↦
            let same : s.records ≡ rs = ground arith in (same, rw same at (text_eq_sound _ b q))
        | inr q ↦ absurd (ground arith)
      ]

  parsed-serialize :
      (crlf : Bool) (b : Text) (rs : Records)
      → parse_records c crlf b ≡ parsed rs
      → All HasFields rs × (c.encode (serialize crlf rs) ≡ b)
  unfolding parse_records
  parsed-serialize crlf b rs e = elim (Option-cases (c.decode b)) [
    | inl n ↦ absurd (cc)
    | inr (t, n) ↦ elim (Option-cases (scan crlf t start)) [
      | inl m ↦ absurd (ground arith)
      | inr (s, m) ↦
          let (same, back) = checked_parsed crlf b s rs (rw (n, parse_records, m) at e) in
          (rw same at (scan-HasFields crlf t start s tt m), back)
    ]
  ]

  -- A file is read as these records exactly when each of them has a field and the file is what `serialize`
  -- writes for them, with the declared terminator; whatever quotes, commas and line breaks are in a field.
  pub parse_records_iff :
      (crlf : Bool) (b : Text) (rs : Records)
      → (parse_records c crlf b ≡ parsed rs)
        ↔ (All HasFields rs × (c.encode (serialize crlf rs) ≡ b))
  parse_records_iff crlf b rs =
      (parsed-serialize crlf b rs, λ h. rw h.1 at (parse_records-serialize crlf rs h.0))
