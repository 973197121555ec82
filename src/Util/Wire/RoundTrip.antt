-- ===== src/Util/Wire/RoundTrip.antt =====
-- util.cc: integers written in network byte order and read back.
use maock.Prelude.{ℕ, ◌+◌, ◌*◌, ◌^◌, ◌<◌, ◌≡◌, ◌++◌, arith}
use maock.Util.Wire.{put_uint16be, put_uint32be, get_uint16, get_uint32, get_uint64}

pub get_uint16-put_uint16be : (n : ℕ) → n < 2 ^ 16 → get_uint16 (put_uint16be n) ≡ n
unfolding get_uint16 put_uint16be
get_uint16-put_uint16be n h = omega arith

pub get_uint32-put_uint32be : (n : ℕ) → n < 2 ^ 32 → get_uint32 (put_uint32be n) ≡ n
unfolding get_uint32 put_uint32be
get_uint32-put_uint32be n h = omega arith

-- get_uint64 of two numbers of 32 bits.
pub get_uint64-put_uint32be :
    (m n : ℕ)
    → m < 2 ^ 32
    → n < 2 ^ 32
    → get_uint64 (put_uint32be m ++ put_uint32be n) ≡ m * 2 ^ 32 + n
unfolding get_uint64 put_uint32be
get_uint64-put_uint32be m n hm hn = omega arith
