-- ===== src/Scenario/Name.antt =====
-- `new_scenario_name` of scripts/deploy_scenario.py.
use data_migration_tool.Prelude.{ℕ, ◌+◌, ◌*◌, ◌/◌, ◌%◌, ◌≤◌, ◌<◌, ◌≡◌, [], ◌∷◌, ◌++◌, arith}
use data_migration_tool.Prelude.Text.{Text, codes}

-- datetime.now(), to the second
pub record Moment : Type 0 where
  pub year : ℕ
  pub month : ℕ
  pub day : ℕ
  pub hour : ℕ
  pub minute : ℕ
  pub second : ℕ

-- %y, %m, %d, %H, %M and %S: two digits
unfoldable pub two_digits : ℕ → Text
two_digits n = (b'0' + n / 10 % 10) ∷ (b'0' + n % 10) ∷ []

unfoldable pub stamp : Moment → Text
unfolding two_digits
stamp t =
    two_digits (t.year % 100)
    ++ two_digits t.month
    ++ two_digits t.day
    ++ two_digits t.hour
    ++ two_digits t.minute
    ++ two_digits t.second

unfoldable pub new_scenario_name : Moment → Text
unfolding stamp
new_scenario_name now = codes "RegressionTest" ++ stamp now

-- the fields of a moment of one century are in range
pub record IsMoment (century : ℕ) (t : Moment) : Type 0 where
  pub year_from : century * 100 ≤ t.year
  pub year_to : t.year < century * 100 + 100
  pub month_to : t.month < 13
  pub day_to : t.day < 32
  pub hour_to : t.hour < 24
  pub minute_to : t.minute < 60
  pub second_to : t.second < 62

two_digits_injective :
    (m n : ℕ) (r s : Text)
    → m < 100
    → n < 100
    → two_digits m ++ r ≡ two_digits n ++ s
    → (m ≡ n) × (r ≡ s)
unfolding two_digits
two_digits_injective m n r s a b h =
    let tens : b'0' + m / 10 % 10 ≡ b'0' + n / 10 % 10 = cc in
    let units : b'0' + m % 10 ≡ b'0' + n % 10 = cc in (omega (arith, tens, units), cc)

stamp_injective :
    (century : ℕ) (t u : Moment)
    → IsMoment century t
    → IsMoment century u
    → stamp t ≡ stamp u
    → t ≡ u
unfolding stamp two_digits
stamp_injective century t u i j h =
    let (y, a) =
      two_digits_injective (t.year % 100) (u.year % 100) _ _ (omega arith) (omega arith) h in
    let (mo, b) = two_digits_injective t.month u.month _ _ (omega arith) (omega arith) a in
    let (d, c) = two_digits_injective t.day u.day _ _ (omega arith) (omega arith) b in
    let (hr, e) = two_digits_injective t.hour u.hour _ _ (omega arith) (omega arith) c in
    let (mi, f) = two_digits_injective t.minute u.minute _ _ (omega arith) (omega arith) e in
    let (s, g) = two_digits_injective t.second u.second [] [] (omega arith) (omega arith) f in
    let years : t.year ≡ u.year = omega arith in cc

-- Two moments of one century that differ give scenario names that differ.
pub new_scenario_name_injective :
    (century : ℕ) (t u : Moment)
    → IsMoment century t
    → IsMoment century u
    → new_scenario_name t ≡ new_scenario_name u
    → t ≡ u
unfolding new_scenario_name
new_scenario_name_injective century t u i j h = stamp_injective century t u i j (cc)
