-- ===== src/Tests/Printed.antt =====
-- util.cc and base64.h: dates and Base64 on small inputs.
use maock.Prelude.{◌≡◌, refl, false, Option, some, [], ◌∷◌, arith, All, length}
use maock.Prelude.Int.{ℤ, pos, negsuc}
use maock.Bytes.{Bytes, IsBytes, codes}
use maock.Base64.{encode, encode_length, decode}
use maock.Util.Token68.{to_token68, to_base64}
use maock.Util.Token68.Inverse.{is_special, decode-to_base64}
use maock.Util.Date.{
  Tm, cpydig, http_text, common_text, iso_text, http_date, common_log_date, iso8601_date, seconds,
  millis,
}
use maock.Util.Date.Read.{IsDate, ReadsHttp, ReadsCommon, ReadsIso, dates_read}

abbrev bytes : Bytes
bytes = 251 ∷ 239 ∷ 255 ∷ 255 ∷ []

bytes-IsBytes : IsBytes bytes
bytes-IsBytes = (omega arith, (omega arith, (omega arith, (omega arith, tt))))

token : to_token68 (encode bytes) ≡ codes "--___w"
unfolding to_token68 encode
token = refl

decode-to_base64_example :
    (length (encode bytes) ≡ encode_length (length bytes))
    × (decode (encode bytes) ≡ bytes)
    × (to_base64 (to_token68 (encode bytes)) ≡ encode bytes)
    × (decode (to_base64 (to_token68 (encode bytes))) ≡ bytes)
    × All (λ c. is_special c ≡ false) (to_token68 (encode bytes))
decode-to_base64_example = decode-to_base64 bytes bytes-IsBytes

-- 2014-09-27 06:31:15, a Saturday
abbrev saturday : ℤ → Tm
saturday gmtoff = record {
  wday = 6;
  mday = 27;
  mon = 8;
  year = pos 114;
  hour = 6;
  min = 31;
  sec = 15;
  gmtoff = gmtoff;
}

abbrev utc_clock : ℤ → Option Tm
utc_clock t = some (saturday (pos 0))

abbrev local_clock : ℤ → Option Tm
local_clock t = some (saturday (negsuc 16199))

printed : http_date utc_clock (pos 0) ≡ codes "Sat, 27 Sep 2014 06:31:15 GMT"
unfolding http_date http_text cpydig
printed = refl

printed_local : iso8601_date local_clock (pos 7) ≡ codes "2014-09-27T06:31:15.007-04:30"
unfolding iso8601_date iso_text cpydig
printed_local = refl

logged : common_log_date local_clock (pos 7) ≡ codes "27/Sep/2014:06:31:15 -0430"
unfolding common_log_date common_text cpydig
logged = refl

utc-IsDate : IsDate (saturday (pos 0))
utc-IsDate = record {
  wday = omega arith;
  mday = omega arith;
  mon = omega arith;
  year = omega arith;
  hour = omega arith;
  min = omega arith;
  sec = omega arith;
  gmtoff = omega arith;
}

local-IsDate : IsDate (saturday (negsuc 16199))
local-IsDate = record {
  wday = omega arith;
  mday = omega arith;
  mon = omega arith;
  year = omega arith;
  hour = omega arith;
  min = omega arith;
  sec = omega arith;
  gmtoff = omega arith;
}

dates_read_example :
    ReadsHttp (saturday (pos 0)) (http_date utc_clock (seconds (pos 7)))
    × ReadsCommon (saturday (negsuc 16199)) (common_log_date local_clock (seconds (pos 7)))
    × ReadsIso (millis (pos 7)) (saturday (negsuc 16199)) (iso8601_date local_clock (pos 7))
dates_read_example =
    dates_read utc_clock local_clock (pos 7) (saturday (pos 0)) (saturday (negsuc 16199)) refl refl
      utc-IsDate local-IsDate (omega arith)
