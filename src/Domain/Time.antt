-- ===== src/Domain/Time.antt =====
-- Python's `datetime` and `timedelta`, as far as the program uses them. An aware datetime is its
-- instant in microseconds since 0001-01-01T00:00Z with its UTC offset; a naive one has no offset
-- and counts its wall clock. Instants before that day are not modelled.
use fpl_data_relay.Prelude.{
  ℕ, ◌+◌, ◌-◌, ◌*◌, ◌/◌, ◌%◌, ◌≡◌, refl, Bool, ◌||◌, Option, none, some, ◌==◌, ltb, leb,
  if◌then◌else◌,
}
use fpl_data_relay.Prelude.Dict.{is_some}
use fpl_data_relay.Domain.Json.{ℤ, pos, pos_part, neg_part}

pub record Datetime : Type 0 where
  pub moment : ℕ
  pub tz : Option ℤ

-- `not (value.tzinfo is None or value.utcoffset() is None)`
abbrev pub is_aware : Datetime → Bool
is_aware d = is_some d.tz

abbrev pub utc : ℕ → Datetime
utc m = record { moment = m; tz = some (pos 0) }

-- `timedelta(seconds=n)`, `timedelta(minutes=n)`, `timedelta(hours=n)`
abbrev pub seconds : ℕ → ℕ
seconds n = n * 1_000_000

abbrev pub minutes : ℕ → ℕ
minutes n = seconds (n * 60)

abbrev pub hours : ℕ → ℕ
hours n = minutes (n * 60)

-- `d + delta` and `d - delta`
abbrev pub plus : Datetime → ℕ → Datetime
plus d delta = record d { moment = d.moment + delta }

abbrev pub minus : Datetime → ℕ → Datetime
minus d delta = record d { moment = d.moment - delta }

-- Orders between two aware values, or two naive ones.
abbrev pub earlier : Datetime → Datetime → Bool
earlier a b = ltb a.moment b.moment

abbrev pub not_after : Datetime → Datetime → Bool
not_after a b = leb a.moment b.moment

-- `max(a, b)` returns the first of two equal values.
abbrev pub later_of : Datetime → Datetime → Datetime
later_of a b = if earlier a b then b else a

abbrev wall : Datetime → ℕ
wall d = elim d.tz [ none ↦ d.moment | some z ↦ d.moment + pos_part z - neg_part z ]

-- The proleptic Gregorian year of a day number that counts from 0001-01-01.
abbrev pub year_of_day : ℕ → ℕ
year_of_day n =
    let in400 = n % 146097 in
    let n100 = in400 / 36524 in
    let in100 = in400 % 36524 in
    let n4 = in100 / 1461 in
    let n1 = (in100 % 1461) / 365 in
    let y = (n / 146097) * 400 + n100 * 100 + n4 * 4 + n1 in
    if n1 == 4 || n100 == 4 then y else y + 1

-- `d.year`
unfoldable pub year : Datetime → ℕ
year d = year_of_day (wall d / hours 24)

-- 2025-08-15T17:30Z
year_example : year (utc (seconds 63890875800)) ≡ 2025
unfolding year
year_example = refl
