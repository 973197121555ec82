-- ===== src/Util/Date/Read.antt =====
-- util.cc: the dates, read back.
use maock.Prelude.{
  ℕ, zero, suc, ◌+◌, ◌/◌, ◌%◌, ◌<◌, ◌≡◌, refl, Bool, true, false, Option, some, List, [], ◌∷◌,
  arith, ◌==◌, if◌then◌else◌, all_below, all_below_sound, length, get_or, take, drop,
}
use maock.Prelude.Int.{ℤ, pos, negsuc}
use maock.Bytes.{Bytes, codes, eqb}
use maock.Bytes.Decimal.{of_decimal}
use maock.Util.Date.{
  common_offset, offset, iso_offset, Tm, cpydig, day_of_week, month, full_year, http_date,
  common_log_date, iso8601_date, http_text, common_text, iso_text, seconds, millis,
}

-- The number in the `n` bytes from `i` on.
abbrev pub number : ℕ → ℕ → Bytes → ℕ
number i n s = of_decimal (take n (drop i s))

-- The place of a name among the names.
abbrev pub place : Bytes → List Bytes → ℕ
place s [] = 0
place s (w ∷ ws) = if eqb s w then 0 else suc (place s ws)

-- The name in the three bytes from `i` on.
abbrev pub name : List Bytes → ℕ → Bytes → ℕ
name names i s = place (take 3 (drop i s)) names

-- The size of an offset in seconds.
abbrev pub magnitude : ℤ → ℕ
magnitude (pos n) = n
magnitude (negsuc n) = n + 1

abbrev pub sign : ℤ → ℕ
sign (pos n) = b'+'
sign (negsuc n) = b'-'

-- What gmtime and localtime promise of their fields, with a year of at most four digits and an offset
-- of less than a day.
pub record IsDate (tm : Tm) : Type 0 where
  pub wday : tm.wday < 7
  pub mday : tm.mday < 32
  pub mon : tm.mon < 12
  pub year : full_year tm.year < 10000
  pub hour : tm.hour < 24
  pub min : tm.min < 60
  pub sec : tm.sec < 62
  pub gmtoff : magnitude tm.gmtoff < 86400

two : (n : ℕ) → n < 100 → of_decimal (cpydig n 2) ≡ n
unfolding cpydig
two n h = omega arith

three : (n : ℕ) → n < 1000 → of_decimal (cpydig n 3) ≡ n
unfolding cpydig
three n h = omega arith

four : (n : ℕ) → n < 10000 → of_decimal (cpydig n 4) ≡ n
unfolding cpydig
four n h = omega arith

-- A name of three letters at its place.
abbrev Named : List Bytes → ℕ → Bytes → Type 0
Named names i w = (a b c : ℕ) × (w ≡ a ∷ b ∷ c ∷ []) × (place (a ∷ b ∷ c ∷ []) names ≡ i)

abbrev is_name : List Bytes → ℕ → Bytes → Bool
is_name names i (a ∷ b ∷ c ∷ []) = place (a ∷ b ∷ c ∷ []) names == i
is_name names i _ = false

is_name-Named :
    (names : List Bytes) (i : ℕ) (w : Bytes) → is_name names i w ≡ true → Named names i w
is_name-Named names i [] h = cc
is_name-Named names i (a ∷ []) h = cc
is_name-Named names i (a ∷ b ∷ []) h = cc
is_name-Named names i (a ∷ b ∷ c ∷ []) h = (a, b, c, refl, ground (arith, h))
is_name-Named names i (a ∷ b ∷ c ∷ d ∷ w) h = cc

all_days : all_below 7 (λ i. is_name day_of_week i (get_or day_of_week i [])) ≡ true
unfolding all_below eqb
all_days = refl

all_months : all_below 12 (λ i. is_name month i (get_or month i [])) ≡ true
unfolding all_below eqb
all_months = refl

day-Named : (i : ℕ) → i < 7 → Named day_of_week i (get_or day_of_week i [])
day-Named i h =
    is_name-Named day_of_week i _
      (all_below_sound 7 (λ i. is_name day_of_week i (get_or day_of_week i [])) i all_days h)

month-Named : (i : ℕ) → i < 12 → Named month i (get_or month i [])
month-Named i h =
    is_name-Named month i _
      (all_below_sound 12 (λ i. is_name month i (get_or month i [])) i all_months h)

abbrev pub ReadsHttp : Tm → Bytes → Type 0
ReadsHttp tm s =
    (length s ≡ 29)
    × (name day_of_week 0 s ≡ tm.wday)
    × (number 5 2 s ≡ tm.mday)
    × (name month 8 s ≡ tm.mon)
    × (number 12 4 s ≡ full_year tm.year)
    × (number 17 2 s ≡ tm.hour)
    × (number 20 2 s ≡ tm.min)
    × (number 23 2 s ≡ tm.sec)

http_text-Reads : (tm : Tm) → IsDate tm → ReadsHttp tm (http_text tm)
unfolding http_text cpydig
http_text-Reads tm h =
    let (a, b, c, w, p) = day-Named tm.wday h.wday in
    let (a', b', c', w', p') = month-Named tm.mon h.mon in
    rw (w, w')
      (
        refl,
        p,
        two tm.mday (let x = h.mday in omega (arith, x)),
        p',
        four (full_year tm.year) h.year,
        two tm.hour (let x = h.hour in omega (arith, x)),
        two tm.min (let x = h.min in omega (arith, x)),
        two tm.sec (let x = h.sec in omega (arith, x)),
      )

abbrev pub ReadsCommon : Tm → Bytes → Type 0
ReadsCommon tm s =
    (length s ≡ 26)
    × (number 0 2 s ≡ tm.mday)
    × (name month 3 s ≡ tm.mon)
    × (number 7 4 s ≡ full_year tm.year)
    × (number 12 2 s ≡ tm.hour)
    × (number 15 2 s ≡ tm.min)
    × (number 18 2 s ≡ tm.sec)
    × (get_or s 21 0 ≡ sign tm.gmtoff)
    × (number 22 2 s ≡ magnitude tm.gmtoff / 3600)
    × (number 24 2 s ≡ magnitude tm.gmtoff % 3600 / 60)

common_offset-magnitude : (z : ℤ) → common_offset z ≡ sign z ∷ offset [] (magnitude z)
common_offset-magnitude (pos n) = refl
common_offset-magnitude (negsuc n) = refl

common_text-Reads : (tm : Tm) → IsDate tm → ReadsCommon tm (common_text tm)
unfolding common_text cpydig
common_text-Reads tm h =
    let (a, b, c, w, p) = month-Named tm.mon h.mon in
    rw (w, common_offset-magnitude tm.gmtoff)
      (
        refl,
        two tm.mday (let x = h.mday in omega (arith, x)),
        p,
        four (full_year tm.year) h.year,
        two tm.hour (let x = h.hour in omega (arith, x)),
        two tm.min (let x = h.min in omega (arith, x)),
        two tm.sec (let x = h.sec in omega (arith, x)),
        refl,
        two (magnitude tm.gmtoff / 3600) (let x = h.gmtoff in omega (arith, x)),
        two (magnitude tm.gmtoff % 3600 / 60) (omega arith),
      )

-- The end of the date in ISO 8601: Z for no offset.
abbrev pub ReadsZone : ℤ → Bytes → Type 0
ReadsZone (pos zero) s = s ≡ codes "Z"
ReadsZone z s =
    (length s ≡ 6)
    × (get_or s 0 0 ≡ sign z)
    × (number 1 2 s ≡ magnitude z / 3600)
    × (number 4 2 s ≡ magnitude z % 3600 / 60)

offset-Reads :
    (c n : ℕ)
    → n < 86400
    → (let s = c ∷ offset (b':' ∷ []) n in
        (length s ≡ 6)
        × (get_or s 0 0 ≡ c)
        × (number 1 2 s ≡ n / 3600)
        × (number 4 2 s ≡ n % 3600 / 60))
unfolding cpydig
offset-Reads c n h = (refl, refl, two (n / 3600) (omega arith), two (n % 3600 / 60) (omega arith))

iso_offset-ReadsZone : (z : ℤ) → magnitude z < 86400 → ReadsZone z (iso_offset z)
iso_offset-ReadsZone (pos zero) h = refl
iso_offset-ReadsZone (pos (suc n)) h = offset-Reads b'+' (suc n) h
iso_offset-ReadsZone (negsuc n) h = offset-Reads b'-' (n + 1) h

abbrev pub ReadsIso : ℕ → Tm → Bytes → Type 0
ReadsIso ms tm s =
    (number 0 4 s ≡ full_year tm.year)
    × (number 5 2 s ≡ tm.mon + 1)
    × (number 8 2 s ≡ tm.mday)
    × (number 11 2 s ≡ tm.hour)
    × (number 14 2 s ≡ tm.min)
    × (number 17 2 s ≡ tm.sec)
    × (number 20 3 s ≡ ms)
    × ReadsZone tm.gmtoff (drop 23 s)

iso_text-Reads :
    (ms : ℤ) (tm : Tm) → IsDate tm → millis ms < 1000 → ReadsIso (millis ms) tm (iso_text ms tm)
unfolding iso_text cpydig
iso_text-Reads ms tm h small = (
  four (full_year tm.year) h.year,
  two (tm.mon + 1) (let x = h.mon in omega (arith, x)),
  two tm.mday (let x = h.mday in omega (arith, x)),
  two tm.hour (let x = h.hour in omega (arith, x)),
  two tm.min (let x = h.min in omega (arith, x)),
  two tm.sec (let x = h.sec in omega (arith, x)),
  three (millis ms) small,
  iso_offset-ReadsZone tm.gmtoff h.gmtoff,
)

-- At a time that gmtime and localtime accept, with the fields they promise, a year of at most four
-- digits and milliseconds below 1000, which a time before 1970 need not have: the texts of http_date
-- and common_log_date have 29 and 26 bytes, and that of iso8601_date ends behind its milliseconds with
-- Z or with six bytes; at the fixed places of the three formats, each text gives back the day, the
-- month, the year and the time of day, http_date the day of the week, iso8601_date the milliseconds,
-- and the last two the offset from UTC in hours and minutes with its sign.
pub dates_read :
    (gmtime localtime : ℤ → Option Tm) (ms : ℤ) (utc local : Tm)
    → gmtime (seconds ms) ≡ some utc
    → localtime (seconds ms) ≡ some local
    → IsDate utc
    → IsDate local
    → millis ms < 1000
    → ReadsHttp utc (http_date gmtime (seconds ms))
      × ReadsCommon local (common_log_date localtime (seconds ms))
      × ReadsIso (millis ms) local (iso8601_date localtime ms)
unfolding http_date common_log_date iso8601_date
dates_read gmtime localtime ms utc local eu el hu hl small = (
  rw (eu, http_date) (http_text-Reads utc hu),
  rw (el, common_log_date) (common_text-Reads local hl),
  rw (el, iso8601_date) (iso_text-Reads ms local hl small),
)
