-- ===== src/Ops/Digest.antt =====
-- src/msgate/ops: the daily and weekly digests. Times are microseconds since the epoch, in UTC.
use msgate.Prelude.{ℕ, ◌+◌, ◌/◌, ◌%◌, Text}
pub mod Report
pub mod Pdf
pub mod Mail
pub mod Schedule

abbrev pub day_length : ℕ
day_length = 86400000000

abbrev pub day_of : ℕ → ℕ
day_of now = now / day_length

-- Weeks begin on Monday, and the epoch was a Thursday.
abbrev pub weekday_of : ℕ → ℕ
weekday_of now = (day_of now + 3) % 7

abbrev pub week_of : ℕ → ℕ
week_of now = (day_of now + 3) / 7

abbrev pub hour_of : ℕ → ℕ
hour_of now = now / 3600000000 % 24

-- What `datetime` prints: a date, a week of the ISO calendar and a time.
pub record Calendar : Type 0 where
  pub date_text : ℕ → Text
  pub week_text : ℕ → Text
  pub isoformat : ℕ → Text
