-- ===== src/Util.antt =====
-- util.cc and util.h: encodings, numbers and the parts of addresses.
pub mod Hex
pub mod Percent
pub mod Number
pub mod Host
pub mod Edit
pub mod Check
pub mod Case
pub mod Token68
pub mod Date
pub mod Wire
