-- ===== src/Logging/Calendar.antt =====
-- The date of logging.rs against the closed formula for the day numbers of the Gregorian calendar.
use hubert_rust.Base.{
  ℕ, zero, suc, ◌+◌, ◌-◌, ◌*◌, ◌/◌, ◌%◌, ◌^◌, ◌≤◌, ◌<◌, ◌≡◌, refl, List, [], ◌∷◌, arith, ltb, leb,
  ◌==◌, if◌then◌else◌, Bool-cases, inl, inr,
}
use hubert_rust.Base.Lists.{length, get_or, take}
use hubert_rust.Logging.{
  is_leap, year_days, find_year, max_i32, returns, month_days, find_month, date_time, DateTime,
}

-- The number of a day of the Gregorian calendar, from 1 March of the year 0 on. The year is taken to
-- begin in March, so that the leap day is its last; its months then begin as the multiples of 30.6 do.
pub day_number : ℕ → ℕ → ℕ → ℕ
day_number year month day =
    let y = if leb month 2 then year - 1 else year in
    365 * y + y / 4 - y / 100 + y / 400 + (153 * ((month + 9) % 12) + 2) / 5 + (day - 1)

-- The number of 1 January 1970.
abbrev pub epoch : ℕ
epoch = 719_468

-- The number of the first day after a month.
abbrev pub next_month : ℕ → ℕ → ℕ
next_month year month =
    if month == 12 then day_number (year + 1) 1 1 else day_number year (month + 1) 1

day_number-epoch : day_number 1970 1 1 ≡ epoch
unfolding day_number
day_number-epoch = refl

-- The years of the loop are those of the formula.
day_number-year :
    (year : ℕ) → 1 ≤ year → day_number (year + 1) 1 1 ≡ day_number year 1 1 + year_days year
unfolding day_number year_days is_leap
day_number-year year h = ground arith

year_days_bounds : (year : ℕ) → (365 ≤ year_days year) × (year_days year ≤ 366)
unfolding year_days
year_days_bounds year = ground arith

-- With a round for each 365 days and one more, and if the year stays an `i32`, the loop over the years
-- ends at the year to which the day belongs.
pub find_year_lem :
    (fuel year days : ℕ)
    → 1 ≤ year
    → days / 365 < fuel
    → year + days / 365 ≤ max_i32
    → (found : ℕ) × (rest : ℕ) × (find_year fuel year days ≡ returns (found, rest))
      × (year ≤ found)
      × (day_number found 1 1 + rest ≡ day_number year 1 1 + days)
      × (rest < year_days found)
unfolding find_year
find_year_lem zero year days low h small = absurd (omega arith)
find_year_lem (suc fuel) year days low h small = elim (Bool-cases (ltb days (year_days year))) [
  | inl here ↦ (year, days, ground arith, omega arith, refl, ground arith)
  | inr later ↦
      let bounds = year_days_bounds year in
      let full : year_days year ≤ days = ground arith in
      let next = day_number-year year low in
      let (found, rest, ends, after, total, fits) =
        find_year_lem fuel (year + 1) (days - year_days year) (omega arith) (omega arith)
          (omega arith) in
      (found, rest, ground arith, omega arith, omega arith, fits)
]

pub sum : List ℕ → ℕ
sum [] = 0
sum (x ∷ l) = x + sum l

-- The loop over the months ends within the table at a day of the month that it finds, if the year
-- has the day: the months before and the day add up to what it was given.
find_month_lem :
    (l : List ℕ) (month day : ℕ)
    → 1 ≤ day
    → day ≤ sum l
    → (i : ℕ) × ((find_month l month day).0 ≡ month + i)
      × (i < length l)
      × (1 ≤ (find_month l month day).1)
      × ((find_month l month day).1 ≤ get_or l i 0)
      × (sum (take i l) + (find_month l month day).1 ≡ day)
unfolding sum find_month
find_month_lem [] month day low high = absurd (omega arith)
find_month_lem (m ∷ l) month day low high = elim (Bool-cases (leb day m)) [
  | inl here ↦ (0, ground arith, omega arith, ground arith, ground arith, ground arith)
  | inr later ↦
      let past : m < day = ground arith in
      let (i, month_of, within, first, last, total) =
        find_month_lem l (month + 1) (day - m) (omega arith) (omega arith) in
      (suc i, ground arith, omega arith, ground arith, ground arith, ground arith)
]

sum-month_days : (year : ℕ) → sum (month_days year) ≡ year_days year
unfolding sum month_days year_days
sum-month_days year = ground arith

length-month_days : (year : ℕ) → length (month_days year) ≡ 12
unfolding month_days
length-month_days year = refl

-- A month's place in the table is one of twelve.
by_month :
    (P : ℕ → Type 0)
    → P 0 × P 1 × P 2 × P 3 × P 4 × P 5 × P 6 × P 7 × P 8 × P 9 × P 10 × P 11
    → (i : ℕ) → i < 12
    → P i
by_month P all zero h = all.0
by_month P all (suc zero) h = all.1
by_month P all (suc (suc zero)) h = all.2
by_month P all (suc (suc (suc zero))) h = all.3
by_month P all (suc (suc (suc (suc zero)))) h = all.4
by_month P all (suc (suc (suc (suc (suc zero))))) h = all.5
by_month P all (suc (suc (suc (suc (suc (suc zero)))))) h = all.6
by_month P all (suc (suc (suc (suc (suc (suc (suc zero))))))) h = all.7
by_month P all (suc (suc (suc (suc (suc (suc (suc (suc zero)))))))) h = all.8
by_month P all (suc (suc (suc (suc (suc (suc (suc (suc (suc zero))))))))) h = all.9
by_month P all (suc (suc (suc (suc (suc (suc (suc (suc (suc (suc zero)))))))))) h = all.10
by_month P all (suc (suc (suc (suc (suc (suc (suc (suc (suc (suc (suc zero))))))))))) h = all.11
by_month P all (suc (suc (suc (suc (suc (suc (suc (suc (suc (suc (suc (suc i)))))))))))) h =
    absurd (omega arith)

-- The months of the table begin and end as the formula says.
record IsTabled (year i : ℕ) : Type 0 where
  first : day_number year 1 1 + sum (take i (month_days year)) ≡ day_number year (1 + i) 1
  last : day_number year (1 + i) 1 + get_or (month_days year) i 0 ≡ next_month year (1 + i)

month_days-IsTabled : (year i : ℕ) → 1 ≤ year → i < 12 → IsTabled year i
unfolding day_number sum month_days is_leap
month_days-IsTabled year i h =
    by_month (IsTabled year)
      (
        record { first = ground arith; last = ground arith },
        record { first = ground arith; last = ground arith },
        record { first = ground arith; last = ground arith },
        record { first = ground arith; last = ground arith },
        record { first = ground arith; last = ground arith },
        record { first = ground arith; last = ground arith },
        record { first = ground arith; last = ground arith },
        record { first = ground arith; last = ground arith },
        record { first = ground arith; last = ground arith },
        record { first = ground arith; last = ground arith },
        record { first = ground arith; last = ground arith },
        record { first = ground arith; last = ground arith },
      )
      i

-- `t` is the date and the time of day of the second `secs` since 1 January 1970: its month exists, its
-- day has the number of that day, and lies in the month.
pub record IsDateOf (secs : ℕ) (t : DateTime) : Type 0 where
  pub first_month : 1 ≤ t.month
  pub last_month : t.month ≤ 12
  pub first_day : 1 ≤ t.day
  pub number : day_number t.year t.month t.day ≡ epoch + secs / 86400
  pub last_day : day_number t.year t.month t.day < next_month t.year t.month
  pub hour_exists : t.hours < 24
  pub minute_exists : t.minutes < 60
  pub second_exists : t.seconds < 60
  pub time_of_day : t.hours * 3600 + t.minutes * 60 + t.seconds ≡ secs % 86400

-- The days of a month are numbered in order.
day_number-day :
    (year month day : ℕ) → 1 ≤ day → day_number year month day + 1 ≡ day_number year month 1 + day
unfolding day_number
day_number-day year month day h = ground arith

-- For each second since the epoch that is less than 2^55, the loops of `timestamp` end without an
-- overflow of the year, at the date and the time of day of that second: by the closed formula for the
-- Gregorian calendar, the date has the number of the second's day and lies in its month.
pub date_time_lem :
    (secs : ℕ) → secs < 2 ^ 55 → (t : DateTime) × (date_time secs ≡ returns t) × IsDateOf secs t
unfolding date_time
date_time_lem secs small =
    let days = secs / 86400 in
    let (year, rest, found, later, total, fits) =
      find_year_lem (days / 365 + 1) 1970 days (omega arith) (omega arith) (omega arith) in
    let table = sum-month_days year in
    let (i, month_of, within, first, last, sums) =
      find_month_lem (month_days year) 1 (rest + 1) (omega arith) (omega arith) in
    let exists : i < 12 = omega (arith, length-month_days year) in
    let month = month_days-IsTabled year i (omega arith) exists in
    let day = (find_month (month_days year) 1 (rest + 1)).1 in
    let in_month = day_number-day year (1 + i) day first in
    let begins = month.first in
    let ends = month.last in
    let start = day_number-epoch in
    let t : DateTime = record {
      year = year;
      month = (find_month (month_days year) 1 (rest + 1)).0;
      day = day;
      hours = (secs % 86400) / 3600;
      minutes = ((secs % 86400) % 3600) / 60;
      seconds = (secs % 86400) % 60;
    } in
    (
      t,
      ground arith,
      record {
        first_month = omega arith;
        last_month = omega arith;
        first_day = first;
        number = rw month_of (omega arith);
        last_day = rw month_of (omega arith);
        hour_exists = omega arith;
        minute_exists = omega arith;
        second_exists = omega arith;
        time_of_day = omega arith;
      },
    )
