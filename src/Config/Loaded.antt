-- ===== src/Config/Loaded.antt =====
-- What config_load can leave in the table, whatever the file holds.
use embedded_network_monitor.Prelude.{
  Option, none, some, List, [], ◌∷◌, arith, Bytes, leb, length, inl, inr, Bool-cases, Option-cases,
}
use embedded_network_monitor.Config.Entries.{Config, max_entries, find}
use embedded_network_monitor.Config.File.{
  is_empty, trim, split_at_eq, is_comment, load_pair, load_line, load_lines, load,
}
use embedded_network_monitor.Config.Laws.{Fits, put-Fits}

abbrev FitsAfter : Option Config → Type 0
FitsAfter none = Unit
FitsAfter (some cfg) = Fits cfg

load_pair-Fits : (cfg : Config) (key val : Bytes) → Fits cfg → FitsAfter (load_pair cfg key val)
unfolding load_pair
load_pair-Fits cfg key val h = elim (Bool-cases (is_empty key)) [
  | inl e ↦ rw e h
  | inr n ↦ elim (Bool-cases (leb max_entries (length cfg))) [
    | inl full ↦ rw (n, full) tt
    | inr room ↦ rw (n, room) (put-Fits cfg (find cfg key) key val h)
  ]
]

load_line-Fits : (cfg : Config) (line : Bytes) → Fits cfg → FitsAfter (load_line cfg line)
unfolding load_line
load_line-Fits cfg line h = elim (Bool-cases (is_comment (trim line))) [
  | inl c ↦ rw c h
  | inr n ↦ elim (Option-cases (split_at_eq (trim line))) [
    | inl e ↦ rw (n, e) h
    | inr s ↦ rw (n, s.1) (load_pair-Fits cfg (trim s.0.0) (trim s.0.1) h)
  ]
]

load_lines-Fits : (lines : List Bytes) (cfg : Config) → Fits cfg → Fits (load_lines cfg lines)
unfolding load_lines
load_lines-Fits [] cfg h = h
load_lines-Fits (line ∷ lines) cfg h = elim (Option-cases (load_line cfg line)) [
  | inl e ↦ rw (e, load_lines) h
  | inr s ↦ rw (s.1, load_lines) (load_lines-Fits lines s.0 (rw s.1 at (load_line-Fits cfg line h)))
]

-- Whatever bytes the file holds, and whether or not it opens, the loaded table has at most 64
-- entries, and every key and value fits its array.
pub load-Fits : (old : Config) (file : Option Bytes) → Fits (load old file).0
unfolding load
load-Fits old none = record { entries_fit = tt; count_fits = omega arith }
load-Fits old (some file) =
    load_lines-Fits _ [] (record { entries_fit = tt; count_fits = omega arith })
