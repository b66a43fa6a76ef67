-- ===== src/Golden/Dat/RoundTrip.antt =====
-- Reading back what `serialize_dat` writes.
use data_migration_tool.Prelude.{
  is_empty-map, ℕ, ◌≡◌, refl, sym, ap, ◌∙◌, ◌↔◌, inl, inr, Bool, true, false, not, List, [], ◌∷◌,
  ◌++◌, map, arith, nat_beq, Option-cases, is_empty, any, All,
}
use data_migration_tool.Prelude.Text.{
  Text, text_eq, text_eq_sound, text_eq_refl, has_suffix, has_suffix_sound, has_suffix-append,
  split_on, join_with,
}
use data_migration_tool.Golden.Csv.{Codec, IsCodec, Records, parsed}
use data_migration_tool.Golden.Csv.RoundTrip.{HasFields}
use data_migration_tool.Golden.Dat.{
  serialize_dat, drop_last, dat_records, read_dat, parse_dat_records,
}
use data_migration_tool.Golden.Dat.Splits.{
  Each, but, split_on-Each, split_on_ne, Each-append, Each-append-left, Each-weaken, join_with-Each,
  split_on-join_with,
}

drop_last-append : (t : Text) (c : ℕ) → drop_last (t ++ c ∷ []) ≡ t
unfolding drop_last
drop_last-append [] c = refl
drop_last-append (a ∷ []) c = refl
drop_last-append (a ∷ (b ∷ t)) c = ap (λ (s : Text). a ∷ s) (drop_last-append (b ∷ t) c)

abbrev pub not_cr : ℕ → Bool
not_cr c = not (nat_beq c b'\r')

-- A field of a .dat file has no CR, no LF and no pipe; a record has a field and a file a record.
abbrev pub IsDatRecord : List Text → Type 0
IsDatRecord r = HasFields r × All (Each (but (but not_cr b'\n') b'|')) r

abbrev pub IsDatFile : Records → Type 0
IsDatFile rs = (is_empty rs ≡ false) × All IsDatRecord rs

fields-IsDatRecord :
    (lines : List Text)
    → All (Each (but not_cr b'\n')) lines
    → All IsDatRecord (map (split_on b'|') lines)
fields-IsDatRecord [] a = tt
fields-IsDatRecord (l ∷ ls) a =
    ((split_on_ne b'|' l, split_on-Each (but not_cr b'\n') b'|' l a.0), fields-IsDatRecord ls a.1)

dat_records-IsDatFile :
    (stem : Text) → Each not_cr stem → IsDatFile (dat_records (stem ++ b'\n' ∷ []))
unfolding dat_records
dat_records-IsDatFile stem a = rw drop_last-append (
  rw is_empty-map (split_on_ne b'\n' stem),
  fields-IsDatRecord (split_on b'\n' stem) (split_on-Each not_cr b'\n' stem a),
)

unseparated :
    (p : ℕ → Bool) (sep : ℕ) (ps : List Text) → All (Each (but p sep)) ps → All (Each p) ps
unseparated p sep [] a = tt
unseparated p sep (q ∷ ps) a =
    (Each-weaken (but p sep) p q (λ c h. ground arith) a.0, unseparated p sep ps a.1)

lines_of : Records → List Text
lines_of rs = map (join_with b'|') rs

lines_of-Each : (rs : Records) → All IsDatRecord rs → All (Each (but not_cr b'\n')) (lines_of rs)
unfolding lines_of
lines_of-Each [] a = tt
lines_of-Each (r ∷ rs) a = (
  join_with-Each (but not_cr b'\n') b'|' r refl (unseparated (but not_cr b'\n') b'|' r a.0.1),
  lines_of-Each rs a.1,
)

split-lines_of : (rs : Records) → All IsDatRecord rs → map (split_on b'|') (lines_of rs) ≡ rs
unfolding lines_of
split-lines_of [] a = refl
split-lines_of (r ∷ rs) a =
    rw (split_on-join_with (but not_cr b'\n') b'|' r a.0.0 a.0.1, split-lines_of rs a.1) refl

stem_of : Records → Text
unfolding lines_of
stem_of rs = join_with b'\n' (lines_of rs)

serialize_dat-stem :
    (rs : Records) → is_empty rs ≡ false → serialize_dat rs ≡ stem_of rs ++ b'\n' ∷ []
unfolding serialize_dat stem_of
serialize_dat-stem [] h = cc
serialize_dat-stem (r ∷ rs) h = refl

dat_records-stem : (rs : Records) → IsDatFile rs → dat_records (stem_of rs ++ b'\n' ∷ []) ≡ rs
unfolding dat_records stem_of lines_of
dat_records-stem rs h = rw drop_last-append (
    ap (λ (l : List Text). map (split_on b'|') l)
      (split_on-join_with not_cr b'\n' (lines_of rs) (is_empty-map (join_with b'|') rs ∙ h.0)
        (lines_of-Each rs h.1))
    ∙ split-lines_of rs h.1)

any_cr : (t : Text) → any (λ x. nat_beq x b'\r') t ≡ false → Each not_cr t
any_cr [] h = tt
any_cr (c ∷ t) h = (ground arith, any_cr t (ground arith))

no_cr : (t : Text) → Each not_cr t → any (λ x. nat_beq x b'\r') t ≡ false
no_cr [] a = refl
no_cr (c ∷ t) a = ground (arith, no_cr t a.1)

stem_of-Each : (rs : Records) → IsDatFile rs → Each not_cr (stem_of rs ++ b'\n' ∷ [])
unfolding stem_of
stem_of-Each rs h =
    Each-append not_cr (stem_of rs) (b'\n' ∷ [])
      (join_with-Each not_cr b'\n' (lines_of rs) refl
        (unseparated not_cr b'\n' (lines_of rs) (lines_of-Each rs h.1)))
      (refl, tt)

read_dat_lem :
    (c : Codec) (b t : Text) (rs : Records)
    → read_dat c b t ≡ parsed rs
    → (any (λ x. nat_beq x b'\r') t ≡ false)
      × (has_suffix (b'\n' ∷ []) t ≡ true)
      × (text_eq (c.encode (serialize_dat (dat_records t))) b ≡ true)
      × (dat_records t ≡ rs)
unfolding read_dat
read_dat_lem c b t rs e = ground arith

read_file :
    (t stem : Text) (rs : Records)
    → t ≡ stem ++ b'\n' ∷ []
    → Each not_cr t
    → dat_records t ≡ rs
    → IsDatFile rs
read_file t stem rs q each recs =
    let ends : Each not_cr (stem ++ b'\n' ∷ []) = rw q at each in
    let back : dat_records (stem ++ b'\n' ∷ []) ≡ rs = ap dat_records (sym q) ∙ recs in
    rw back at (dat_records-IsDatFile stem (Each-append-left not_cr stem (b'\n' ∷ []) ends))

module _ (c : Codec) (law : IsCodec c) where
  read-parsed :
      (b t : Text) (rs : Records)
      → read_dat c b t ≡ parsed rs
      → IsDatFile rs × (c.encode (serialize_dat rs) ≡ b)
  read-parsed b t rs e =
      let (cr, lf, same, recs) = read_dat_lem c b t rs e in
      let (stem, q) = has_suffix_sound (b'\n' ∷ []) t lf in
      (read_file t stem rs q (any_cr t cr) recs, rw recs at (text_eq_sound _ b same))

  parsed-IsDatFile :
      (b : Text) (rs : Records)
      → parse_dat_records c b ≡ parsed rs
      → IsDatFile rs × (c.encode (serialize_dat rs) ≡ b)
  unfolding parse_dat_records
  parsed-IsDatFile b rs e = elim (Option-cases (c.decode b)) [
    | inl n ↦ absurd (cc)
    | inr (t, n) ↦ read-parsed b t rs (rw (n, parse_dat_records) at e)
  ]

  parse_dat_records-serialize_dat :
      (rs : Records) → IsDatFile rs → parse_dat_records c (c.encode (serialize_dat rs)) ≡ parsed rs
  unfolding parse_dat_records read_dat
  parse_dat_records-serialize_dat rs h =
      rw
        (
          law.decode_encode (serialize_dat rs),
          parse_dat_records,
          serialize_dat-stem rs h.0,
          no_cr _ (stem_of-Each rs h),
          has_suffix-append (b'\n' ∷ []) (stem_of rs),
          dat_records-stem rs h,
          serialize_dat-stem rs h.0,
          text_eq_refl,
        )
        refl

  -- A .dat file is read as these records exactly when there is a record, each has a field, no field has a
  -- pipe, an LF or a CR, and the file is what `serialize_dat` writes for them.
  pub parse_dat_records_iff :
      (b : Text) (rs : Records)
      → (parse_dat_records c b ≡ parsed rs) ↔ (IsDatFile rs × (c.encode (serialize_dat rs) ≡ b))
  parse_dat_records_iff b rs =
      (parsed-IsDatFile b rs, λ h. rw h.1 at (parse_dat_records-serialize_dat rs h.0))
