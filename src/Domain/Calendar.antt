-- ===== src/Domain/Calendar.antt =====
-- Decimal digits, the civil calendar and `strftime`, as the program uses them.
use Prim.Native.String.{◌++◌ as ◌<>◌}
use fpl_data_relay.Prelude.{
  ℕ, zero, suc, ◌+◌, ◌-◌, ◌*◌, ◌/◌, ◌%◌, ◌≡◌, refl, String, Bool, ◌&&◌, ◌||◌, not, List, [], ◌∷◌,
  ◌==◌, ltb, if◌then◌else◌,
}
use fpl_data_relay.Domain.Time.{Datetime, utc, seconds, year_of_day}

abbrev digit : ℕ → String
digit n =
    if n == 0
    then "0"
    else if n == 1
    then "1"
    else if n == 2
    then "2"
    else if n == 3
    then "3"
    else if n == 4
    then "4"
    else if n == 5
    then "5"
    else if n == 6
    then "6"
    else if n == 7
    then "7"
    else if n == 8
    then "8"
    else "9"

-- The digits of a number, which has at most as many digits as the fuel.
digits_from : ℕ → ℕ → String → String
digits_from zero n acc = acc
digits_from (suc fuel) n acc =
    let more = digits_from fuel (n / 10) (digit (n % 10) <> acc) in
    if ltb n 10 then digit n <> acc else more

-- `str(n)`
unfoldable pub decimal : ℕ → String
unfolding digits_from
decimal n = digits_from (suc n) n ""

-- `f"{n:02d}"` below 100
abbrev pub two_digits : ℕ → String
two_digits n = digit (n / 10 % 10) <> digit (n % 10)

abbrev is_leap : ℕ → Bool
is_leap y = y % 4 == 0 && (not (y % 100 == 0) || y % 400 == 0)

-- Days of the years before `y`, which is at least 1.
abbrev days_before_year : ℕ → ℕ
days_before_year y = let n = y - 1 in n * 365 + n / 4 - n / 100 + n / 400

abbrev month_lengths : ℕ → List ℕ
month_lengths y =
    31 ∷ (if is_leap y then 29 else 28) ∷ 31 ∷ 30 ∷ 31 ∷ 30 ∷ 31 ∷ 31 ∷ 30 ∷ 31 ∷ 30 ∷ 31 ∷ []

-- The month and the day of the month, from the months left, the next month and the days to go.
month_day : List ℕ → ℕ → ℕ → ℕ × ℕ
month_day [] m d = (m, d + 1)
month_day (n ∷ rest) m d =
    let next = month_day rest (m + 1) (d - n) in if ltb d n then (m, d + 1) else next

pub record Civil : Type 0 where
  pub year : ℕ
  pub month : ℕ
  pub day : ℕ
  pub hour : ℕ
  pub minute : ℕ
  pub second : ℕ

-- The UTC calendar fields of a moment.
unfoldable pub civil : ℕ → Civil
unfolding month_day
civil moment =
    let s = moment / seconds 1 in
    let n = s / 86400 in
    let y = year_of_day n in
    let (m, d) = month_day (month_lengths y) 1 (n - days_before_year y) in
    record {
      year = y;
      month = m;
      day = d;
      hour = s % 86400 / 3600;
      minute = s % 3600 / 60;
      second = s % 60;
    }

-- `d.astimezone(UTC).strftime("%Y%m%d%H%M")`
unfoldable pub minute_stamp : Datetime → String
unfolding decimal civil
minute_stamp d =
    let c = civil d.moment in
    decimal c.year
    <> two_digits c.month
    <> two_digits c.day
    <> two_digits c.hour
    <> two_digits c.minute

-- `d.astimezone(UTC).strftime("%Y-%m-%dT%H:%M:%S")`
unfoldable pub second_stamp : Datetime → String
unfolding decimal civil
second_stamp d =
    let c = civil d.moment in
    decimal c.year
    <> "-"
    <> two_digits c.month
    <> "-"
    <> two_digits c.day
    <> "T"
    <> two_digits c.hour
    <> ":"
    <> two_digits c.minute
    <> ":"
    <> two_digits c.second

-- 2024-02-29T12:34:56Z
second_stamp_example : second_stamp (utc (seconds 63844806896)) ≡ "2024-02-29T12:34:56"
unfolding second_stamp
second_stamp_example = refl
