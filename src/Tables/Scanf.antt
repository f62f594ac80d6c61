-- ===== src/Tables/Scanf.antt =====
-- `sscanf` of the C library, for the conversions that the readers of /proc use. `int` and `long` have
-- 32 bits, as on the ARM target.
use embedded_network_monitor.Prelude.{
  ℕ, zero, suc, ◌+◌, ◌-◌, ◌*◌, ◌%◌, ◌^◌, Bool, true, false, ◌&&◌, ◌||◌, Option, none, some, List,
  [], ◌∷◌, leb, ◌==◌, if◌then◌else◌, Bytes, length,
}
use embedded_network_monitor.Config.Text.{is_space, skip_space}
use embedded_network_monitor.Collector.Proc.{scan_signed}

abbrev pub is_hex : ℕ → Bool
is_hex c = (leb 48 c && leb c 57) || (leb 65 c && leb c 70) || (leb 97 c && leb c 102)

abbrev pub hex_of : ℕ → ℕ
hex_of c = if leb c 57 then c - 48 else if leb c 70 then c - 55 else c - 87

-- the number that the leading hexadecimal digits spell, behind `acc`
unfoldable pub hex_value : ℕ → Bytes → ℕ
hex_value acc [] = acc
hex_value acc (c ∷ s) =
    let rest = hex_value (acc * 16 + hex_of c) s in if is_hex c then rest else acc

unfoldable pub skip_hex : Bytes → Bytes
skip_hex [] = []
skip_hex (c ∷ s) = let rest = skip_hex s in if is_hex c then rest else c ∷ s

unfoldable pub starts_hex : Bytes → Bool
starts_hex [] = false
starts_hex (c ∷ s) = is_hex c

-- `0x` in front is skipped
unfoldable pub strip_0x : Bytes → Bytes
strip_0x [] = []
strip_0x (c ∷ []) = c ∷ []
strip_0x (c ∷ d ∷ s) = if c == b'0' && (d == b'x' || d == b'X') then s else c ∷ d ∷ s

-- behind the sign; too large a number is the largest
unfoldable pub scan_hex_digits : Bool → Bytes → Option (ℕ × Bytes)
unfolding hex_value skip_hex starts_hex
scan_hex_digits minus s =
    let n = hex_value 0 s in
    let v = if leb (2 ^ 32) n then 2 ^ 32 - 1 else if minus then (2 ^ 32 - n) % 2 ^ 32 else n in
    if starts_hex s then some (v, skip_hex s) else none

unfoldable pub scan_hex : Bytes → Option (ℕ × Bytes)
unfolding scan_hex_digits strip_0x
scan_hex [] = none
scan_hex (c ∷ s) =
    if c == b'-'
    then scan_hex_digits true (strip_0x s)
    else if c == b'+'
    then scan_hex_digits false (strip_0x s)
    else scan_hex_digits false (strip_0x (c ∷ s))

-- up to `room` bytes that are no white space, and the rest
unfoldable pub span_word : ℕ → Bytes → Bytes × Bytes
unfolding is_space
span_word zero s = ([], s)
span_word (suc room) [] = ([], [])
span_word (suc room) (c ∷ s) =
    let (word, rest) = span_word room s in if is_space c then ([], c ∷ s) else (c ∷ word, rest)

-- at least one byte
unfoldable pub scan_word : ℕ → Bytes → Option (Bytes × Bytes)
unfolding span_word
scan_word room s =
    let (word, rest) = span_word room s in if length word == 0 then none else some (word, rest)

-- white space, a literal byte, `%u`, `%x` and `%<room>s` in a format
pub data Conversion : Type 0 where
  space unsigned hex : Conversion
  literal : ℕ → Conversion
  word : ℕ → Conversion

-- what a conversion stores
pub data Value : Type 0 where
  number : ℕ → Value
  text : Bytes → Value

-- A conversion has a value and leaves the rest to the conversions that follow, or fails and ends them.
unfoldable pub store {ℓ} :
    {A : Type ℓ} → (A → Value) → (Bytes → List Value) → Option (A × Bytes) → List Value
store value next none = []
store value next (some (a, rest)) = value a ∷ next rest

-- the values that are stored, in order
unfoldable pub sscanf : List Conversion → Bytes → List Value
unfolding store scan_signed scan_hex scan_word skip_space
sscanf [] s = []
sscanf (space ∷ format) s = sscanf format (skip_space s)
sscanf (literal c ∷ format) [] = []
sscanf (literal c ∷ format) (d ∷ s) = let rest = sscanf format s in if c == d then rest else []
sscanf (unsigned ∷ format) s = store number (sscanf format) (scan_signed 32 (skip_space s))
sscanf (hex ∷ format) s = store number (sscanf format) (scan_hex (skip_space s))
sscanf (word room ∷ format) s = store text (sscanf format) (scan_word room (skip_space s))
