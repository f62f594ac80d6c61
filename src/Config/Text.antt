-- ===== src/Config/Text.antt =====
-- The C library's text functions that config.c, alerts.c and the parsers of /proc use: `isspace`,
-- `strtol` in base 10, `%d`.
use embedded_network_monitor.Prelude.{
  ℕ, zero, suc, ◌+◌, ◌-◌, ◌*◌, ◌/◌, ◌%◌, ◌^◌, Bool, false, ◌&&◌, ◌||◌, Option, none, some, [], ◌∷◌,
  ◌++◌, Bytes, leb, ltb, ◌==◌, if◌then◌else◌,
}
use embedded_network_monitor.Prelude.Int.{ℤ, pos, negsuc}

-- in the C locale: tab, newline, vertical tab, form feed, carriage return, space
unfoldable pub is_space : ℕ → Bool
is_space c = c == 32 || (leb 9 c && leb c 13)

unfoldable pub is_digit : ℕ → Bool
is_digit c = leb 48 c && leb c 57

unfoldable pub skip_space : Bytes → Bytes
skip_space [] = []
skip_space (c ∷ s) = if is_space c then skip_space s else c ∷ s

-- the number that the leading digits of a text spell, behind `acc`
unfoldable pub digits_value : ℕ → Bytes → ℕ
unfolding is_digit
digits_value acc [] = acc
digits_value acc (c ∷ s) =
    let rest = digits_value (acc * 10 + (c - 48)) s in if is_digit c then rest else acc

unfoldable pub starts_digit : Bytes → Bool
unfolding is_digit
starts_digit [] = false
starts_digit (c ∷ s) = is_digit c

abbrev pub int_max : ℕ
int_max = 2 ^ 31 - 1

-- `strtol` stops at LONG_MAX and LONG_MIN: `long` has the 32 bits of the ARM target
unfoldable pub saturate_pos : ℕ → ℤ
saturate_pos n = if leb n int_max then pos n else pos int_max

unfoldable pub saturate_neg : ℕ → ℤ
saturate_neg n =
    if n == 0 then pos 0 else if leb n (int_max + 1) then negsuc (n - 1) else negsuc int_max

-- behind the white space and the sign
unfoldable pub unsigned : Bytes → Option ℕ
unfolding digits_value starts_digit
unsigned s = if starts_digit s then some (digits_value 0 s) else none

unfoldable pub signed : Bytes → Option ℤ
unfolding unsigned saturate_pos saturate_neg
signed [] = none
signed (c ∷ s) =
    if c == b'-'
    then elim (unsigned s) [ none ↦ none | some n ↦ some (saturate_neg n) ]
    else if c == b'+'
    then elim (unsigned s) [ none ↦ none | some n ↦ some (saturate_pos n) ]
    else elim (unsigned (c ∷ s)) [ none ↦ none | some n ↦ some (saturate_pos n) ]

-- `strtol (s, &end, 10)`, with `none` for `end == s`
unfoldable pub strtol : Bytes → Option ℤ
unfolding signed skip_space is_space
strtol s = signed (skip_space s)

-- 0 where there is no number
unfoldable pub atoi : Bytes → ℤ
unfolding strtol
atoi s = elim (strtol s) [ none ↦ pos 0 | some z ↦ z ]

-- the decimal digits of `n`, the fuel above `n`
unfoldable pub digits : ℕ → ℕ → Bytes
digits zero n = []
digits (suc fuel) n =
    let front = digits fuel (n / 10) in
    if ltb n 10 then (48 + n) ∷ [] else front ++ (48 + n % 10) ∷ []

unfoldable pub decimal_nat : ℕ → Bytes
unfolding digits
decimal_nat n = digits (suc n) n

-- `%d`
unfoldable pub decimal : ℤ → Bytes
unfolding decimal_nat
decimal (pos n) = decimal_nat n
decimal (negsuc n) = b'-' ∷ decimal_nat (suc n)
