-- ===== src/Util/Time.antt =====
-- `getDayOfWeek`, `getMonth` and `makeHttpTime` of src/util/utils.cpp.
use nawa.Common.{ℕ, ◌+◌, ◌/◌, ◌%◌, [], ◌∷◌, ◌++◌, Option, none, some, Bytes, codes, get_elem?}
use nawa.Common.Result.{Result, ok, err, exception}
use nawa.Common.Number.{to_string}

-- `struct tm`, as `gmtime_r` fills it in: `year` counts from 1900 and `mon` from 0.
pub record Tm : Type 0 where
  pub sec : ℕ
  pub min : ℕ
  pub hour : ℕ
  pub mday : ℕ
  pub mon : ℕ
  pub year : ℕ
  pub wday : ℕ

abbrev or_empty : Option Bytes → Bytes
or_empty none = []
or_empty (some v) = v

-- The switch, whose default leaves the text empty.
unfoldable pub get_day_of_week : ℕ → Bytes
get_day_of_week dow = or_empty (
    get_elem?
      (codes "Sun"
        ∷ codes "Mon"
        ∷ codes "Tue"
        ∷ codes "Wed"
        ∷ codes "Thu"
        ∷ codes "Fri"
        ∷ codes "Sat"
        ∷ [])
      dow)

unfoldable pub get_month : ℕ → Bytes
get_month mon = or_empty (
    get_elem?
      (codes "Jan"
        ∷ codes "Feb"
        ∷ codes "Mar"
        ∷ codes "Apr"
        ∷ codes "May"
        ∷ codes "Jun"
        ∷ codes "Jul"
        ∷ codes "Aug"
        ∷ codes "Sep"
        ∷ codes "Oct"
        ∷ codes "Nov"
        ∷ codes "Dec"
        ∷ [])
      mon)

-- `%d`, `%H`, `%M` and `%S` of `put_time`.
two_digits : ℕ → Bytes
two_digits n = (b'0' + n / 10) ∷ (b'0' + n % 10) ∷ []

-- `gmtime_r` fails for a year that its result cannot hold.
unfoldable pub make_http_time : (ℕ → Option Tm) → ℕ → Result Bytes
unfolding get_day_of_week get_month two_digits
make_http_time gmtime time = elim (gmtime time) [
  | none ↦ err (exception 1)
  | some gmt ↦ ok (
      get_day_of_week gmt.wday
      ++ codes ", "
      ++ two_digits gmt.mday
      ++ codes " "
      ++ get_month gmt.mon
      ++ codes " "
      ++ to_string (gmt.year + 1900)
      ++ codes " "
      ++ two_digits gmt.hour
      ++ codes ":"
      ++ two_digits gmt.min
      ++ codes ":"
      ++ two_digits gmt.sec
      ++ codes " GMT")
]
