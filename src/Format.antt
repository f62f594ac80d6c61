-- ===== src/Format.antt =====
-- src/core/utils.c: the texts that the interface and the API show. Each function writes to a buffer of
-- `buf_len` bytes, which is there and not empty at every call. A little-endian machine. `%.2f` of the C library is the argument
-- `fixed`, with its number of decimals, and the local time of day is an argument.
pub mod Addresses
mod Examples
use embedded_network_monitor.Prelude.{
  ℕ, zero, suc, ◌+◌, ◌-◌, ◌*◌, ◌/◌, ◌%◌, ◌^◌, ◌≤◌, ◌<◌, min, ◌≡◌, refl, sym, ap, ap₂, ◌∙◌, ◌≢◌, ◌↔◌,
  ◌⊎◌, inl, inr, Bool, true, false, not, ◌&&◌, ◌||◌, Option, none, some, List, [], ◌∷◌, ◌++◌, map,
  append-nil, append_assoc, arith, ltb, leb, ◌==◌, if◌then◌else◌, Bool-cases, Option-cases, Bytes,
  codes, str_eq, str_eq_refl, str_eq→eq, ne→str_eq, length, get_elem?, get_or, set, take, drop,
  replicate, All, length-append, length-set, length-take, length-replicate, take_all,
  get_or-set_self, get_or-set_ne, All-append, All-set, All-replicate, All-get_or,
}
use embedded_network_monitor.Config.Text.{decimal_nat}
use embedded_network_monitor.Config.Entries.{copy_str}
use embedded_network_monitor.Prelude.Floating.{Floating}

abbrev pub hex_digit : ℕ → ℕ
hex_digit d = if ltb d 10 then 48 + d else 55 + d

-- `%02X`
abbrev pub hex2 : ℕ → Bytes
hex2 n = hex_digit (n / 16) ∷ hex_digit (n % 16) ∷ []

-- `%02d`
unfoldable pub two_digits : ℕ → Bytes
two_digits n = if ltb n 10 then b'0' ∷ decimal_nat n else decimal_nat n

unfoldable pub format_ip : ℕ → ℕ → Bytes
format_ip ip buf_len = copy_str buf_len (
    decimal_nat (ip % 256)
    ++ b'.' ∷ decimal_nat (ip / 256 % 256)
    ++ b'.' ∷ decimal_nat (ip / 65536 % 256)
    ++ b'.' ∷ decimal_nat (ip / 16777216 % 256))

-- the six bytes of the array
unfoldable pub format_mac : List ℕ → ℕ → Bytes
format_mac mac buf_len = copy_str buf_len (
    hex2 (get_or mac 0 0)
    ++ b':' ∷ hex2 (get_or mac 1 0)
    ++ b':' ∷ hex2 (get_or mac 2 0)
    ++ b':' ∷ hex2 (get_or mac 3 0)
    ++ b':' ∷ hex2 (get_or mac 4 0)
    ++ b':' ∷ hex2 (get_or mac 5 0))

unfoldable pub duration_text : ℕ → ℕ → ℕ → ℕ → Bytes
duration_text days hours mins secs =
    if ltb 0 days
    then decimal_nat days ++ codes "d " ++ decimal_nat hours ++ codes "h"
    else if ltb 0 hours
    then decimal_nat hours ++ codes "h " ++ decimal_nat mins ++ codes "m"
    else if ltb 0 mins
    then decimal_nat mins ++ codes "m " ++ decimal_nat secs ++ codes "s"
    else decimal_nat secs ++ codes "s"

unfoldable pub format_duration : ℕ → ℕ → Bytes
unfolding duration_text
format_duration seconds buf_len =
    copy_str buf_len (
      duration_text (seconds / 86400) (seconds % 86400 / 3600) (seconds % 3600 / 60) (seconds % 60))

unfoldable pub format_timestamp : ℕ → ℕ → ℕ → ℕ → Bytes
unfolding two_digits
format_timestamp hour minute second buf_len =
    copy_str buf_len (two_digits hour ++ b':' ∷ two_digits minute ++ b':' ∷ two_digits second)

module _ {D : Type 0} ⦃f : Floating D⦄ where
  unfoldable pub format_bytes : (ℕ → D → Bytes) → ℕ → ℕ → Bytes
  format_bytes fixed bytes buf_len = copy_str buf_len (
      if leb 1073741824 bytes
      then fixed 2 (f.div (f.of_ℕ bytes) (f.of_ℕ 1073741824)) ++ codes " GB"
      else if leb 1048576 bytes
      then fixed 2 (f.div (f.of_ℕ bytes) (f.of_ℕ 1048576)) ++ codes " MB"
      else if leb 1024 bytes
      then fixed 2 (f.div (f.of_ℕ bytes) (f.of_ℕ 1024)) ++ codes " KB"
      else decimal_nat bytes ++ codes " B")

  -- `a >= b` is `not (b > a)`: no rate is a NaN
  unfoldable pub format_rate : (ℕ → D → Bytes) → D → ℕ → Bytes
  format_rate fixed rate buf_len = copy_str buf_len (
      if not (f.gtb (f.of_ℕ 1073741824) rate)
      then fixed 2 (f.div rate (f.of_ℕ 1073741824)) ++ codes " GB/s"
      else if not (f.gtb (f.of_ℕ 1048576) rate)
      then fixed 2 (f.div rate (f.of_ℕ 1048576)) ++ codes " MB/s"
      else if not (f.gtb (f.of_ℕ 1024) rate)
      then fixed 2 (f.div rate (f.of_ℕ 1024)) ++ codes " KB/s"
      else fixed 0 rate ++ codes " B/s")
