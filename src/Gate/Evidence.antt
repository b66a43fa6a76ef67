-- ===== src/Gate/Evidence.antt =====
-- scripts/promotion_gate.py: the evidence file, its entries and the promotion log. An entry is a
-- dict of JSON values; an ISO time text is kept with the instant that it denotes, in seconds.
use data_migration_tool.Prelude.{
  ℕ, zero, suc, ◌+◌, ◌/◌, ◌%◌, String, Bool, true, false, not, ◌&&◌, ◌||◌, Option, none, some, List,
  [], ◌∷◌, ◌++◌, ◌==◌, ltb, if◌then◌else◌, is_empty,
}
use data_migration_tool.Prelude.Text.{Text, codes, has_prefix, has_suffix, text_eq}

pub data Value : Type 0 where
  null : Value
  flag : Bool → Value
  num : ℕ → Value
  minus : ℕ → Value
  text : String → Value
  stamp : String → ℕ → Value
  texts : List String → Value

abbrev pub Entry : Type 0
Entry = List (String × Value)

-- entry.get(key): a missing key reads as None
unfoldable pub get : Entry → String → Value
get [] k = null
get ((j, v) ∷ e) k = if j == k then v else get e k

-- entry[key] = value
unfoldable pub put : String → Value → Entry → Entry
put k v [] = (k, v) ∷ []
put k v ((j, w) ∷ e) = if j == k then (k, v) ∷ e else (j, w) ∷ put k v e

-- bool(value); `minus n` is the number -(n + 1)
unfoldable pub truthy : Value → Bool
truthy null = false
truthy (flag b) = b
truthy (num zero) = false
truthy (num (suc n)) = true
truthy (minus n) = true
truthy (text s) = not (s == "")
truthy (stamp s t) = true
truthy (texts xs) = not (is_empty xs)

-- value == "..." ; a time text is never one of the words that the gate compares with
unfoldable pub is_text : Value → String → Bool
is_text (text s) k = s == k
is_text (stamp s t) k = s == k
is_text _ k = false

-- value == 0; False equals 0 in Python
unfoldable pub is_zero : Value → Bool
is_zero (num zero) = true
is_zero (flag false) = true
is_zero _ = false

-- the decimal digits of n in front of the text, on fuel
unfoldable pub decimal_onto : ℕ → ℕ → Text → Text
decimal_onto zero n out = out
decimal_onto (suc fuel) n out =
    let rest = decimal_onto fuel (n / 10) ((b'0' + n % 10) ∷ out) in
    if ltb n 10 then (b'0' + n) ∷ out else rest

unfoldable pub decimal : ℕ → Text
unfolding decimal_onto
decimal n = decimal_onto (suc n) n []

-- the items of a Python list's repr, each in single quotes
show_items : List String → Text
show_items [] = []
show_items (s ∷ []) = b'\'' ∷ codes s ++ b'\'' ∷ []
show_items (s ∷ (t ∷ rest)) = (b'\'' ∷ codes s ++ b'\'' ∷ b',' ∷ b' ' ∷ []) ++ show_items (t ∷ rest)

-- str(value); the quotes of a list's items are not escaped, since no check reads such a text
unfoldable pub show : Value → Text
unfolding decimal show_items
show null = codes "None"
show (flag true) = codes "True"
show (flag false) = codes "False"
show (num n) = decimal n
show (minus n) = b'-' ∷ decimal (n + 1)
show (text s) = codes s
show (stamp s t) = codes s
show (texts xs) = b'[' ∷ show_items xs ++ b']' ∷ []

-- _parse: None for anything that is no ISO time
unfoldable pub parse_time : Value → Option ℕ
parse_time (stamp s t) = some t
parse_time _ = none

-- regression_verdict_passes, on str(verdict or "")
unfoldable pub regression_verdict_passes : Value → Bool
regression_verdict_passes v =
    if truthy v
    then text_eq (show v) (codes "PASS")
      || has_prefix (codes "PASS (no new failures; ") (show v)
        && has_suffix (codes " known)") (show v)
    else false

-- The evidence: the schema number, once written, and the latest entry of each step.
pub record Evidence : Type 0 where
  pub schema : Option ℕ
  pub steps : List (String × Entry)

-- load_evidence
pub data Loaded : Type 0 where
  absent : Loaded
  unreadable : String → Loaded
  loaded : Evidence → Loaded

unfoldable pub step_of : List (String × Entry) → String → Entry
step_of [] k = []
step_of ((j, e) ∷ rest) k = if j == k then e else step_of rest k

unfoldable pub set_step : String → Entry → List (String × Entry) → List (String × Entry)
set_step k e [] = (k, e) ∷ []
set_step k e ((j, f) ∷ rest) = if j == k then (k, e) ∷ rest else (j, f) ∷ set_step k e rest
