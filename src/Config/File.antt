-- ===== src/Config/File.antt =====
-- `trim`, `config_load` and `config_save` of config.c. A file is its bytes, none of them NUL; `none`
-- is a file that does not open.
use embedded_network_monitor.Prelude.{
  ℕ, ◌-◌, Bool, true, false, ◌&&◌, ◌||◌, Option, none, some, List, [], ◌∷◌, ◌++◌, Bytes, leb, ◌==◌,
  if◌then◌else◌, length,
}
use embedded_network_monitor.Prelude.Int.{ℤ, pos, negsuc}
use embedded_network_monitor.Config.Text.{is_space, skip_space}
use embedded_network_monitor.Config.Entries.{Config, max_entries, find, put}

abbrev pub is_empty : Bytes → Bool
is_empty [] = true
is_empty (c ∷ s) = false

-- from the end, while there is white space
unfoldable pub trim_end : Bytes → Bytes
trim_end [] = []
trim_end (c ∷ s) = let r = trim_end s in if is_space c && is_empty r then [] else c ∷ r

unfoldable pub trim : Bytes → Bytes
unfolding trim_end skip_space is_space
trim buf = trim_end (skip_space buf)

-- `strchr (p, '=')` as the text before and the text behind
unfoldable pub split_at_eq : Bytes → Option (Bytes × Bytes)
split_at_eq [] = none
split_at_eq (c ∷ s) =
    if c == b'='
    then some ([], s)
    else elim (split_at_eq s) [ none ↦ none | some (k, v) ↦ some (c ∷ k, v) ]

abbrev pub is_comment : Bytes → Bool
is_comment [] = true
is_comment (c ∷ s) = c == b'#'

-- one round of the `while` in `config_load`; `none` is its `break`
unfoldable pub load_pair : Config → Bytes → Bytes → Option Config
load_pair cfg key val =
    if is_empty key
    then some cfg
    else if leb max_entries (length cfg)
    then none
    else some (put cfg (find cfg key) key val)

unfoldable pub load_line : Config → Bytes → Option Config
load_line cfg line =
    let p = trim line in
    if is_comment p
    then some cfg
    else elim (split_at_eq p) [ none ↦ some cfg | some (k, v) ↦ load_pair cfg (trim k) (trim v) ]

unfoldable pub load_lines : Config → List Bytes → Config
load_lines cfg [] = cfg
load_lines cfg (line ∷ lines) = elim (load_line cfg line) [
  | none ↦ cfg
  | some cfg' ↦ load_lines cfg' lines
]

-- `char line[256]`: `fgets` reads up to a newline, or 255 bytes
abbrev pub line_room : ℕ
line_room = 255

-- `room` bytes are left in the line that has begun with `got`
unfoldable pub fgets_lines : ℕ → Bytes → Bytes → List Bytes
fgets_lines room got [] = if is_empty got then [] else got ∷ []
fgets_lines room got (c ∷ s) =
    let ended = (got ++ c ∷ []) ∷ fgets_lines line_room [] s in
    let longer = fgets_lines (room - 1) (got ++ c ∷ []) s in
    if c == 10 || leb room 1 then ended else longer

-- the result is -1 for a file that does not open
unfoldable pub load : Config → Option Bytes → Config × ℤ
load cfg none = ([], negsuc 0)
load cfg (some file) = (load_lines [] (fgets_lines line_room [] file), pos 0)

-- `config_save`: what is written into the file
unfoldable pub save : Config → Bytes
save [] = []
save (e ∷ cfg) = e.key ++ b'=' ∷ (e.value ++ 10 ∷ save cfg)

-- `config_load` with its NULL tests, on the files by their paths
unfoldable pub config_load :
    (Bytes → Option Bytes) → Option Config → Option Bytes → Option Config × ℤ
unfolding load
config_load files none path = (none, negsuc 0)
config_load files (some cfg) none = (some cfg, negsuc 0)
config_load files (some cfg) (some path) =
    let (loaded, result) = load cfg (files path) in (some loaded, result)

-- `config_save`: the file afterwards, from what it was and whether it opens, and the result
unfoldable pub config_save : Bool → Option Bytes → Option Config → Option Bytes → Option Bytes × ℤ
unfolding save
config_save opens old none path = (old, negsuc 0)
config_save opens old (some cfg) none = (old, negsuc 0)
config_save opens old (some cfg) (some path) =
    if opens then (some (save cfg), pos 0) else (old, negsuc 0)
