-- ===== src/Golden/Csv.antt =====
-- `parse_records` and `serialize` of test/golden/compare_fbdi.py: the CSV members. UTF-8 is a codec, which
-- stands for bytes.decode and str.encode.
pub mod RoundTrip
use data_migration_tool.Prelude.{
  ℕ, ◌+◌, ◌≡◌, Bool, true, false, not, ◌&&◌, ◌||◌, Option, none, some, List, [], ◌∷◌, ◌++◌, map,
  nat_beq, if◌then◌else◌, is_empty,
}
use data_migration_tool.Prelude.Text.{Text, text_eq, join_with}

pub record Codec : Type 0 where
  pub decode : Text → Option Text  -- none is a UnicodeDecodeError
  pub encode : Text → Text

-- Strict decoding undoes encoding, and accepts nothing else.
pub record IsCodec (c : Codec) : Type 0 where
  pub decode_encode : (t : Text) → c.decode (c.encode t) ≡ some t
  pub encode_decode : (b t : Text) → c.decode b ≡ some t → c.encode t ≡ b

abbrev pub Records : Type 0
Records = List (List Text)

pub data Problem : Type 0 where
  not_utf8 bare_break not_terminated format_drift : Problem
  -- a .dat file with CR bytes
  has_cr : Problem

pub data Parsed : Type 0 where
  parsed : Records → Parsed
  problem : Problem → Parsed

-- the variables of the loop; `skip` is set where the loop has looked one character ahead
pub record State : Type 0 where
  pub in_quotes : Bool
  pub field : Text
  pub fields : List Text
  pub records : Records
  pub skip : Bool

abbrev pub next_is : ℕ → Text → Bool
next_is c [] = false
next_is c (d ∷ s) = nat_beq d c

abbrev end_field : State → State
end_field s = record s { fields = s.fields ++ s.field ∷ []; field = [] }

abbrev end_record : State → State
end_record s = record s {
  records = s.records ++ (s.fields ++ s.field ∷ []) ∷ [];
  fields = [];
  field = [];
}

quoted_step : ℕ → Text → State → State
quoted_step c ahead s =
    if nat_beq c b'"'
    then if next_is b'"' ahead
      then record s { field = s.field ++ b'"' ∷ []; skip = true }
      else record s { in_quotes = false }
    else record s { field = s.field ++ c ∷ [] }

plain_step : Bool → ℕ → Text → State → Option State
plain_step crlf c ahead s =
    if nat_beq c b'"'
    then some (record s { in_quotes = true })
    else if nat_beq c b','
    then some (end_field s)
    else if crlf && nat_beq c b'\r' && next_is b'\n' ahead
    then some (record (end_record s) { skip = true })
    else if not crlf && nat_beq c b'\n'
    then some (end_record s)
    else if nat_beq c b'\r' || nat_beq c b'\n'
    then none
    else some (record s { field = s.field ++ c ∷ [] })

-- one character, with what is ahead of it
unfoldable pub step : Bool → ℕ → Text → State → Option State
unfolding quoted_step plain_step
step crlf c ahead s =
    if s.skip
    then some (record s { skip = false })
    else if s.in_quotes
    then some (quoted_step c ahead s)
    else plain_step crlf c ahead s

-- the loop; `none` is a line break that is not the declared terminator
unfoldable pub scan : Bool → Text → State → Option State
unfolding step
scan crlf [] s = some s
scan crlf (c ∷ t) s = elim (step crlf c t s) [ none ↦ none | some s' ↦ scan crlf t s' ]

-- f.replace('"', '""')
unfoldable pub doubled : Text → Text
doubled [] = []
doubled (c ∷ f) = if nat_beq c b'"' then b'"' ∷ b'"' ∷ doubled f else c ∷ doubled f

unfoldable pub quote : Text → Text
unfolding doubled
quote f = b'"' ∷ doubled f ++ b'"' ∷ []

unfoldable pub record_line : List Text → Text
unfolding quote join_with
record_line r = join_with b',' (map quote r)

abbrev pub terminator_of : Bool → Text
terminator_of true = b'\r' ∷ b'\n' ∷ []
terminator_of false = b'\n' ∷ []

-- sep.join(lines)
unfoldable pub join_lines : Text → List Text → Text
join_lines sep [] = []
join_lines sep (l ∷ []) = l
join_lines sep (l ∷ (m ∷ ls)) = l ++ sep ++ join_lines sep (m ∷ ls)

unfoldable pub serialize : Bool → Records → Text
unfolding record_line join_lines
serialize crlf [] = []
serialize crlf (r ∷ rs) =
    join_lines (terminator_of crlf) (map record_line (r ∷ rs)) ++ terminator_of crlf

abbrev pub start : State
start = record { in_quotes = false; field = []; fields = []; records = []; skip = false }

-- what the loop has left
abbrev unfinished : State → Bool
unfinished s = not (is_empty s.fields) || not (is_empty s.field) || s.in_quotes

unfoldable pub checked : Codec → Bool → Text → Option State → Parsed
unfolding serialize
checked c crlf bytes none = problem bare_break
checked c crlf bytes (some s) =
    if unfinished s
    then problem not_terminated
    else if not (text_eq (c.encode (serialize crlf s.records)) bytes)
    then problem format_drift
    else parsed s.records

unfoldable pub parse_records : Codec → Bool → Text → Parsed
unfolding scan checked
parse_records c crlf bytes = elim (c.decode bytes) [
  | none ↦ problem not_utf8
  | some t ↦ checked c crlf bytes (scan crlf t start)
]
