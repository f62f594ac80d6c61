-- ===== src/Collector/Names.antt =====
-- What `parse_proc_net_dev` can give, whatever the file holds.
use embedded_network_monitor.Prelude.{
  ℕ, zero, suc, ◌-◌, ◌≤◌, ◌<◌, ◌≢◌, inl, inr, Option, none, some, List, [], ◌∷◌, arith, leb,
  Bool-cases, Bytes, codes, str_eq, length, take, All, length-take, eq→str_eq,
}
use embedded_network_monitor.NetState.{NetStats, iface_name_max}
use embedded_network_monitor.Alerts.Ignore.{skip_blanks}
use embedded_network_monitor.Collector.Proc.{
  stats_from, scan_numbers, parse_columns, parse_parts, parse_line, split_colon, keep_stats_of,
  parse_lines, parse_proc_net_dev,
}

-- statistics of an interface other than the loopback, with a name that fits its array
pub record IsNamed (s : NetStats) : Type 0 where
  pub fits : length s.name < iface_name_max
  pub not_loopback : s.name ≢ codes "lo"

abbrev NamedIfSome : Option NetStats → Type 0
NamedIfSome none = Unit
NamedIfSome (some s) = IsNamed s

parse_columns-IsNamed :
    (name columns : Bytes) → length name < iface_name_max → NamedIfSome (parse_columns name columns)
unfolding parse_columns stats_from
parse_columns-IsNamed name columns h = elim (Bool-cases (str_eq name (codes "lo"))) [
  | inl e ↦ rw e tt
  | inr e ↦
      let other : name ≢ codes "lo" = λ same. ground (arith, eq→str_eq name (codes "lo") same) in
      elim (Bool-cases (leb 16 (length (scan_numbers 16 columns)))) [
        | inl full ↦ rw (e, full) (record { fits = h; not_loopback = other })
        | inr short ↦ rw (e, short) tt
      ]
]

parse_parts-IsNamed : (o : Option (Bytes × Bytes)) → NamedIfSome (parse_parts o)
unfolding parse_parts
parse_parts-IsNamed none = tt
parse_parts-IsNamed (some (before, after)) =
    parse_columns-IsNamed (take (iface_name_max - 1) (skip_blanks before)) after
      (omega (arith, length-take 15 (skip_blanks before)))

parse_line-IsNamed : (line : Bytes) → NamedIfSome (parse_line line)
unfolding parse_line
parse_line-IsNamed line = parse_parts-IsNamed (split_colon line)

keep_stats_of-All :
    (o : Option NetStats) (same less : List NetStats)
    → NamedIfSome o
    → All IsNamed same
    → All IsNamed less
    → All IsNamed (keep_stats_of o same less)
unfolding keep_stats_of
keep_stats_of-All none same less h hs hl = hs
keep_stats_of-All (some s) same less h hs hl = (h, hl)

parse_lines-All : (room : ℕ) (lines : List Bytes) → All IsNamed (parse_lines room lines)
unfolding parse_lines
parse_lines-All room [] = tt
parse_lines-All zero (line ∷ lines) = tt
parse_lines-All (suc room) (line ∷ lines) =
    keep_stats_of-All (parse_line line) (parse_lines (suc room) lines) (parse_lines room lines)
      (parse_line-IsNamed line) (parse_lines-All (suc room) lines) (parse_lines-All room lines)

length-keep_stats_of :
    (o : Option NetStats) (same less : List NetStats) (room : ℕ)
    → length same ≤ suc room
    → length less ≤ room
    → length (keep_stats_of o same less) ≤ suc room
unfolding keep_stats_of
length-keep_stats_of none same less room hs hl = hs
length-keep_stats_of (some s) same less room hs hl = omega arith

length-parse_lines : (room : ℕ) (lines : List Bytes) → length (parse_lines room lines) ≤ room
unfolding parse_lines
length-parse_lines room [] = omega arith
length-parse_lines zero (line ∷ lines) = omega arith
length-parse_lines (suc room) (line ∷ lines) =
    length-keep_stats_of (parse_line line) (parse_lines (suc room) lines) (parse_lines room lines)
      room (length-parse_lines (suc room) lines) (length-parse_lines room lines)

-- Whatever /proc/net/dev holds, at most `max_count` entries are written, each with a name that fits
-- its array of 16 bytes, and none for the loopback interface.
pub parse_proc_net_dev-All :
    (file : Option Bytes) (max_count : ℕ)
    → (length (parse_proc_net_dev file max_count) ≤ max_count)
      × All IsNamed (parse_proc_net_dev file max_count)
unfolding parse_proc_net_dev
parse_proc_net_dev-All none max_count = (omega arith, tt)
parse_proc_net_dev-All (some file) max_count =
    (length-parse_lines max_count _, parse_lines-All max_count _)
