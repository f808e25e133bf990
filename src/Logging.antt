-- ===== src/Logging.antt =====
-- logging.rs: `timestamp`, from the time since the Unix epoch, and what the functions that print
-- write. The loop over the years runs on fuel.
pub mod Calendar
use hubert_rust.Base.{
  ℕ, zero, suc, ◌+◌, ◌-◌, ◌*◌, ◌/◌, ◌%◌, Bool, true, false, not, ◌&&◌, ◌||◌, ◌^◌, List, [], ◌∷◌,
  ◌++◌, ltb, leb, ◌==◌, if◌then◌else◌,
}
use hubert_rust.Base.Lists.{Bytes, text, length, newline}
use hubert_rust.Text.Decimal.{decimal}

pub is_leap : ℕ → Bool
is_leap year = year % 4 == 0 && (not (year % 100 == 0) || year % 400 == 0)

unfoldable pub year_days : ℕ → ℕ
unfolding is_leap
year_days year = if is_leap year then 366 else 365

-- How a run ends: with a value, in a panic, or out of fuel.
pub data Run (A : Type 0) : Type 0 where
  returns : A → Run A
  panics stuck : Run A

abbrev pub map_run : {A B : Type 0} → (A → B) → Run A → Run B
map_run f (returns a) = returns (f a)
map_run f panics = panics
map_run f stuck = stuck

-- `i32::MAX`
abbrev pub max_i32 : ℕ
max_i32 = 2 ^ 31 - 1

-- The year, which is an `i32`, and the days of it that have passed. `year += 1` panics at the largest
-- year, as it does in a build with checks for overflow.
unfoldable pub find_year : ℕ → ℕ → ℕ → Run (ℕ × ℕ)
find_year zero year remaining_days = stuck
find_year (suc fuel) year remaining_days =
    let later = find_year fuel (year + 1) (remaining_days - year_days year) in
    if ltb remaining_days (year_days year)
    then returns (year, remaining_days)
    else if leb max_i32 year
    then panics
    else later

unfoldable pub month_days : ℕ → List ℕ
unfolding is_leap
month_days year =
    31 ∷ (if is_leap year then 29 else 28) ∷ 31 ∷ 30 ∷ 31 ∷ 30 ∷ 31 ∷ 31 ∷ 30 ∷ 31 ∷ 30 ∷ 31 ∷ []

-- The month and the day of it; `day` counts from 1.
unfoldable pub find_month : List ℕ → ℕ → ℕ → ℕ × ℕ
find_month [] month day = (month, day)
find_month (days_in_month ∷ rest) month day =
    let later = find_month rest (month + 1) (day - days_in_month) in
    if leb day days_in_month then (month, day) else later

pub record DateTime : Type 0 where
  pub year : ℕ
  pub month : ℕ
  pub day : ℕ
  pub hours : ℕ
  pub minutes : ℕ
  pub seconds : ℕ

-- For a number of seconds that is a `u64`. Enough fuel for the years: each takes 365 days at least,
-- and the loop one more round.
unfoldable pub date_time : ℕ → Run DateTime
date_time secs =
    let days_since_epoch = secs / 86400 in
    let secs_today = secs % 86400 in
    map_run
      (λ (year, remaining_days).
        let (month, day) = find_month (month_days year) 1 (remaining_days + 1) in
        record {
          year = year;
          month = month;
          day = day;
          hours = secs_today / 3600;
          minutes = (secs_today % 3600) / 60;
          seconds = secs_today % 60;
        })
      (find_year (days_since_epoch / 365 + 1) 1970 days_since_epoch)

zeros : ℕ → Bytes
zeros zero = []
zeros (suc n) = b'0' ∷ zeros n

-- `{:0w}`
pad : ℕ → ℕ → Bytes
unfolding zeros
pad width n = let shown = decimal n in zeros (width - length shown) ++ shown

-- `{:04}-{:02}-{:02}T{:02}:{:02}:{:02}.{:03}Z`
unfoldable pub format_timestamp : DateTime → ℕ → Bytes
unfolding pad
format_timestamp t millis =
    pad 4 t.year
    ++ (text "-"
        ++ (pad 2 t.month
            ++ (text "-"
                ++ (pad 2 t.day
                    ++ (text "T"
                        ++ (pad 2 t.hours
                            ++ (text ":"
                                ++ (pad 2 t.minutes
                                    ++ (text ":"
                                        ++ (pad 2 t.seconds
                                            ++ (text "." ++ (pad 3 millis ++ text "Z"))))))))))))

-- `timestamp`, where the clock reads `secs` seconds and `millis` milliseconds since the epoch.
unfoldable pub timestamp : ℕ → ℕ → Run Bytes
unfolding date_time find_year year_days month_days find_month format_timestamp decimal
timestamp secs millis = map_run (λ t. format_timestamp t millis) (date_time secs)

-- What `verbose_println` prints at that time: nothing of an empty message.
abbrev pub verbose_println : ℕ → ℕ → Bytes → Run Bytes
verbose_println secs millis [] = returns []
verbose_println secs millis (c ∷ message) =
    map_run (λ t. text "[" ++ (t ++ (text "] " ++ ((c ∷ message) ++ newline))))
      (timestamp secs millis)

-- The two other functions print one character.
abbrev pub verbose_print_dot : Bytes
verbose_print_dot = text "."

abbrev pub verbose_newline : Bytes
verbose_newline = newline
