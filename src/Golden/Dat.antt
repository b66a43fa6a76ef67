-- ===== src/Golden/Dat.antt =====
-- `parse_dat_records` and `serialize_dat` of test/golden/compare_fbdi.py: the HDL .dat members.
pub mod Splits
pub mod RoundTrip
use data_migration_tool.Prelude.{
  ◌+◌, not, none, some, [], ◌∷◌, ◌++◌, map, nat_beq, if◌then◌else◌, any,
}
use data_migration_tool.Prelude.Text.{Text, text_eq, has_suffix, split_on, join_with}
use data_migration_tool.Golden.Csv.{
  Codec, Records, Parsed, parsed, problem, not_utf8, has_cr, not_terminated, format_drift,
}

unfoldable pub serialize_dat : Records → Text
unfolding join_with
serialize_dat [] = []
serialize_dat (r ∷ rs) = join_with b'\n' (map (join_with b'|') (r ∷ rs)) ++ b'\n' ∷ []

-- text[:-1]
unfoldable pub drop_last : Text → Text
drop_last [] = []
drop_last (c ∷ []) = []
drop_last (c ∷ (d ∷ t)) = c ∷ drop_last (d ∷ t)

unfoldable pub dat_records : Text → Records
unfolding split_on drop_last
dat_records t = map (split_on b'|') (split_on b'\n' (drop_last t))

unfoldable pub read_dat : Codec → Text → Text → Parsed
unfolding has_suffix dat_records serialize_dat
read_dat c bytes t =
    if any (λ x. nat_beq x b'\r') t
    then problem has_cr
    else if not (has_suffix (b'\n' ∷ []) t)
    then problem not_terminated
    else if not (text_eq (c.encode (serialize_dat (dat_records t))) bytes)
    then problem format_drift
    else parsed (dat_records t)

unfoldable pub parse_dat_records : Codec → Text → Parsed
unfolding read_dat
parse_dat_records c bytes = elim (c.decode bytes) [
  | none ↦ problem not_utf8
  | some t ↦ read_dat c bytes t
]
