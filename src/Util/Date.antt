-- ===== src/Util/Date.antt =====
-- util.cc: http_date, common_log_date and iso8601_date.
pub mod Read
use maock.Prelude.{
  ℕ, zero, suc, ◌+◌, ◌-◌, ◌/◌, ◌%◌, ◌^◌, Option, none, some, List, [], ◌∷◌, ◌++◌, get_or,
}
use maock.Prelude.Int.{ℤ, pos, negsuc}
use maock.Bytes.{Bytes, codes}

-- What the code reads of struct tm; `gmtoff` is tm_gmtoff.
pub record Tm : Type 0 where
  pub wday : ℕ
  pub mday : ℕ
  pub mon : ℕ
  pub year : ℤ
  pub hour : ℕ
  pub min : ℕ
  pub sec : ℕ
  pub gmtoff : ℤ

-- cpydig: the last `len` digits of `n`.
unfoldable pub cpydig : ℕ → ℕ → Bytes
cpydig n zero = []
cpydig n (suc len) = cpydig (n / 10) len ++ (48 + n % 10) ∷ []

-- DAY_OF_WEEK and MONTH
abbrev pub day_of_week : List Bytes
day_of_week =
    codes "Sun"
    ∷ codes "Mon"
    ∷ codes "Tue"
    ∷ codes "Wed"
    ∷ codes "Thu"
    ∷ codes "Fri"
    ∷ codes "Sat"
    ∷ []

abbrev pub month : List Bytes
month =
    codes "Jan"
    ∷ codes "Feb"
    ∷ codes "Mar"
    ∷ codes "Apr"
    ∷ codes "May"
    ∷ codes "Jun"
    ∷ codes "Jul"
    ∷ codes "Aug"
    ∷ codes "Sep"
    ∷ codes "Oct"
    ∷ codes "Nov"
    ∷ codes "Dec"
    ∷ []

-- `tm_year + 1900` as a uint32_t
abbrev pub full_year : ℤ → ℕ
full_year (pos y) = (y + 1900) % 2 ^ 32
full_year (negsuc y) = (2 ^ 32 + 1899 - y) % 2 ^ 32

-- A buffer of this size with zeros only.
abbrev pub zeros : ℕ → Bytes
zeros zero = []
zeros (suc n) = 0 ∷ zeros n

-- Hour, minute and second with colons.
abbrev pub clock : Tm → Bytes
clock tm = cpydig tm.hour 2 ++ b':' ∷ cpydig tm.min 2 ++ b':' ∷ cpydig tm.sec 2

unfoldable pub http_text : Tm → Bytes
unfolding cpydig
http_text tm =
    get_or day_of_week tm.wday []
    ++ b',' ∷ b' ' ∷ cpydig tm.mday 2
    ++ b' ' ∷ get_or month tm.mon []
    ++ b' ' ∷ cpydig (full_year tm.year) 4
    ++ b' ' ∷ clock tm
    ++ codes " GMT"

unfoldable pub http_date : (ℤ → Option Tm) → ℤ → Bytes
unfolding http_text
http_date gmtime t = elim (gmtime t) [ none ↦ zeros 29 | some tm ↦ http_text tm ]

-- The offset from UTC: hours and minutes, with `colon` between them.
abbrev pub offset : Bytes → ℕ → Bytes
offset colon gmtoff = cpydig (gmtoff / 3600) 2 ++ colon ++ cpydig (gmtoff % 3600 / 60) 2

abbrev pub common_offset : ℤ → Bytes
common_offset (pos n) = b'+' ∷ offset [] n
common_offset (negsuc n) = b'-' ∷ offset [] (n + 1)

unfoldable pub common_text : Tm → Bytes
unfolding cpydig
common_text tm =
    cpydig tm.mday 2
    ++ b'/' ∷ get_or month tm.mon []
    ++ b'/' ∷ cpydig (full_year tm.year) 4
    ++ b':' ∷ clock tm
    ++ b' ' ∷ common_offset tm.gmtoff

unfoldable pub common_log_date : (ℤ → Option Tm) → ℤ → Bytes
unfolding common_text
common_log_date localtime t = elim (localtime t) [ none ↦ zeros 26 | some tm ↦ common_text tm ]

abbrev pub iso_offset : ℤ → Bytes
iso_offset (pos zero) = b'Z' ∷ []
iso_offset (pos (suc n)) = b'+' ∷ offset (b':' ∷ []) (suc n)
iso_offset (negsuc n) = b'-' ∷ offset (b':' ∷ []) (n + 1)

abbrev negative : ℕ → ℤ
negative zero = pos 0
negative (suc n) = negsuc n

-- `ms / 1000`, and `ms % 1000` as a uint32_t
abbrev pub seconds : ℤ → ℤ
seconds (pos n) = pos (n / 1000)
seconds (negsuc n) = negative ((n + 1) / 1000)

abbrev pub millis : ℤ → ℕ
millis (pos n) = n % 1000
millis (negsuc n) = (2 ^ 32 - (n + 1) % 1000) % 2 ^ 32

unfoldable pub iso_text : ℤ → Tm → Bytes
unfolding cpydig
iso_text ms tm =
    cpydig (full_year tm.year) 4
    ++ b'-' ∷ cpydig (tm.mon + 1) 2
    ++ b'-' ∷ cpydig tm.mday 2
    ++ b'T' ∷ clock tm
    ++ b'.' ∷ cpydig (millis ms) 3
    ++ iso_offset tm.gmtoff

unfoldable pub iso8601_date : (ℤ → Option Tm) → ℤ → Bytes
unfolding iso_text
iso8601_date localtime ms = elim (localtime (seconds ms)) [ none ↦ [] | some tm ↦ iso_text ms tm ]
