-- ===== src/Collector/Proc.antt =====
-- `parse_proc_net_dev` and `read_meminfo`, on the text of the file; it has no NUL.
use mathlib.Core.Option
use embedded_network_monitor.Prelude.{
  ℕ, zero, suc, ◌-◌, ◌%◌, ◌^◌, Bool, true, false, ◌||◌, Option, none, some, List, [], ◌∷◌, ◌++◌,
  leb, ◌==◌, if◌then◌else◌, Bytes, codes, str_eq, length, get_or, take, drop,
}
use embedded_network_monitor.NetState.{NetStats, NetState, iface_name_max}
use embedded_network_monitor.Config.Text.{skip_space, digits_value, is_digit, starts_digit}
use embedded_network_monitor.Alerts.Ignore.{skip_blanks}

-- the lines that `fgets` gives in a buffer of `size` bytes, `room` of which are left in the line that
-- has begun with `got`
unfoldable pub fgets_from : ℕ → ℕ → Bytes → Bytes → List Bytes
fgets_from size room got [] = if length got == 0 then [] else got ∷ []
fgets_from size room got (c ∷ s) =
    let ended = (got ++ c ∷ []) ∷ fgets_from size (size - 1) [] s in
    let longer = fgets_from size (room - 1) (got ++ c ∷ []) s in
    if c == 10 || leb room 1 then ended else longer

-- what stands before the first colon, and behind it
unfoldable pub split_colon : Bytes → Option (Bytes × Bytes)
split_colon [] = none
split_colon (c ∷ s) =
    let rest = Option.map (λ parts. (c ∷ parts.0, parts.1)) (split_colon s) in
    if c == b':' then some ([], s) else rest

unfoldable pub skip_digits : Bytes → Bytes
unfolding is_digit
skip_digits [] = []
skip_digits (c ∷ s) = if is_digit c then skip_digits s else c ∷ s

-- `%lu` and `%llu`, of `w` bits, behind the white space and the sign, which has been a minus or not;
-- too large a number is the largest
unfoldable pub scan_digits : ℕ → Bool → Bytes → Option (ℕ × Bytes)
unfolding digits_value starts_digit skip_digits
scan_digits w minus s =
    let n = digits_value 0 s in
    let v = if leb (2 ^ w) n then 2 ^ w - 1 else if minus then (2 ^ w - n) % 2 ^ w else n in
    if starts_digit s then some (v, skip_digits s) else none

unfoldable pub scan_signed : ℕ → Bytes → Option (ℕ × Bytes)
unfolding scan_digits
scan_signed w [] = none
scan_signed w (c ∷ s) =
    if c == b'-'
    then scan_digits w true s
    else if c == b'+'
    then scan_digits w false s
    else scan_digits w false (c ∷ s)

-- the numbers of `n` conversions, fewer if one fails
unfoldable pub scan_numbers : ℕ → Bytes → List ℕ
unfolding scan_signed skip_space
scan_numbers zero s = []
scan_numbers (suc n) s = elim (scan_signed 64 (skip_space s)) [
  | none ↦ []
  | some (v, rest) ↦ v ∷ scan_numbers n rest
]

-- the columns that are kept, of all sixteen
unfoldable pub stats_from : Bytes → List ℕ → Option NetStats
stats_from name ns =
    if leb 16 (length ns)
    then some (record {
      name = name;
      rx_bytes = get_or ns 0 0;
      rx_packets = get_or ns 1 0;
      rx_errors = get_or ns 2 0;
      rx_dropped = get_or ns 3 0;
      tx_bytes = get_or ns 8 0;
      tx_packets = get_or ns 9 0;
      tx_errors = get_or ns 10 0;
      tx_dropped = get_or ns 11 0;
      collisions = get_or ns 13 0;
    })
    else none

-- behind the colon has been found
unfoldable pub parse_columns : Bytes → Bytes → Option NetStats
unfolding stats_from scan_numbers
parse_columns name columns =
    if str_eq name (codes "lo") then none else stats_from name (scan_numbers 16 columns)

unfoldable pub parse_parts : Option (Bytes × Bytes) → Option NetStats
unfolding parse_columns skip_blanks
parse_parts none = none
parse_parts (some (before, after)) =
    parse_columns (take (iface_name_max - 1) (skip_blanks before)) after

unfoldable pub parse_line : Bytes → Option NetStats
unfolding parse_parts split_colon
parse_line line = parse_parts (split_colon line)

unfoldable pub keep_stats_of : Option NetStats → List NetStats → List NetStats → List NetStats
keep_stats_of none same less = same
keep_stats_of (some s) same less = s ∷ less

-- the loop, with `room` entries of the array left
unfoldable pub parse_lines : ℕ → List Bytes → List NetStats
unfolding parse_line keep_stats_of
parse_lines room [] = []
parse_lines zero (line ∷ lines) = []
parse_lines (suc room) (line ∷ lines) =
    let same = parse_lines (suc room) lines in
    let less = parse_lines room lines in keep_stats_of (parse_line line) same less

-- `none` for a file that does not open
unfoldable pub parse_proc_net_dev : Option Bytes → ℕ → List NetStats
unfolding parse_lines fgets_from
parse_proc_net_dev none max_count = []
parse_proc_net_dev (some file) max_count =
    parse_lines max_count (drop 2 (fgets_from 512 511 [] file))

-- what follows a label
unfoldable pub strip_label : Bytes → Bytes → Option Bytes
strip_label [] s = some s
strip_label (l ∷ label) [] = none
strip_label (l ∷ label) (c ∷ s) = let rest = strip_label label s in if l == c then rest else none

unfoldable pub scan_value : Option Bytes → Option ℕ
unfolding scan_signed skip_space
scan_value none = none
scan_value (some s) = Option.map (λ r. r.0) (scan_signed 32 (skip_space s))

-- `sscanf (line, "<label> %lu kB", &val) == 1`, with the 32 bits of `long` on the ARM target
unfoldable pub scan_field : Bytes → Bytes → Option ℕ
unfolding scan_value strip_label
scan_field label line = scan_value (strip_label label line)

module _ {D : Type 0} where
  -- by the three conversions in turn, of which the first that succeeds counts
  unfoldable pub set_memory : Option ℕ → Option ℕ → Option ℕ → NetState D → NetState D
  set_memory (some val) free available net = record net { mem_total_kb = val % 2 ^ 32 }
  set_memory none (some val) available net = record net { mem_free_kb = val % 2 ^ 32 }
  set_memory none none (some val) net = record net { mem_available_kb = val % 2 ^ 32 }
  set_memory none none none net = net

  unfoldable pub read_mem_lines : List Bytes → NetState D → NetState D
  unfolding set_memory scan_field
  read_mem_lines [] net = net
  read_mem_lines (line ∷ lines) net = read_mem_lines lines (
      set_memory (scan_field (codes "MemTotal:") line) (scan_field (codes "MemFree:") line)
        (scan_field (codes "MemAvailable:") line) net)

  unfoldable pub read_meminfo : Option Bytes → NetState D → NetState D
  unfolding read_mem_lines fgets_from
  read_meminfo none net = net
  read_meminfo (some file) net = read_mem_lines (fgets_from 128 127 [] file) net

  -- the uptime, if it could be read
  unfoldable pub set_uptime : Option ℕ → NetState D → NetState D
  set_uptime none net = net
  set_uptime (some v) net = record net { uptime_sec = v % 2 ^ 32 }
