-- ===== src/Config/Entries.antt =====
-- The entries of config.c. The array `entries[0 .. count)` is a list of `count` entries; what lies
-- behind it is never read. A NULL pointer is `none`, and so is -1 as an index. `long` and `int` are
-- 32 bits wide, as on the ARM target, so that `strtol` saturates at 32 bits.
use mathlib.Core.Option
use embedded_network_monitor.Prelude.{
  ℕ, zero, suc, ◌-◌, Option, none, some, List, [], ◌∷◌, ◌++◌, Bytes, str_eq, ltb, if◌then◌else◌,
  length, take,
}
use embedded_network_monitor.Prelude.Int.{ℤ}
use embedded_network_monitor.Config.Text.{strtol, decimal}

abbrev pub max_entries : ℕ
max_entries = 64

abbrev pub key_max : ℕ
key_max = 64

abbrev pub val_max : ℕ
val_max = 128

-- `config_entry_t`
pub record Entry : Type 0 where
  pub key : Bytes
  pub value : Bytes

-- `config_t`
abbrev pub Config : Type 0
Config = List Entry

-- `snprintf (dst, size, "%s", src)`
abbrev pub copy_str : ℕ → Bytes → Bytes
copy_str size src = take (size - 1) src

unfoldable pub find : Config → Bytes → Option ℕ
find [] key = none
find (e ∷ cfg) key = if str_eq e.key key then some 0 else Option.map suc (find cfg key)

-- `cfg->entries[idx].value` overwritten
unfoldable pub set_value : Config → ℕ → Bytes → Config
set_value [] idx value = []
set_value (e ∷ cfg) zero value = record e { value = copy_str val_max value } ∷ cfg
set_value (e ∷ cfg) (suc idx) value = e ∷ set_value cfg idx value

-- a new last entry
unfoldable pub append_entry : Config → Bytes → Bytes → Config
append_entry cfg key value =
    cfg ++ (record { key = copy_str key_max key; value = copy_str val_max value } ∷ [])

unfoldable pub value_at : Config → Option ℕ → Option Bytes → Option Bytes
value_at cfg none default_val = default_val
value_at [] (some idx) default_val = default_val
value_at (e ∷ cfg) (some zero) default_val = some e.value
value_at (e ∷ cfg) (some (suc idx)) default_val = value_at cfg (some idx) default_val

-- `config_get_str` behind its NULL tests
unfoldable pub get_value : Config → Bytes → Option Bytes → Option Bytes
get_value cfg key default_val = value_at cfg (find cfg key) default_val

unfoldable pub get_str : Option Config → Option Bytes → Option Bytes → Option Bytes
get_str none key default_val = default_val
get_str (some cfg) none default_val = default_val
get_str (some cfg) (some key) default_val = get_value cfg key default_val

unfoldable pub int_of : Option Bytes → ℤ → ℤ
int_of none default_val = default_val
int_of (some val) default_val = elim (strtol val) [ none ↦ default_val | some result ↦ result ]

unfoldable pub get_int : Option Config → Option Bytes → ℤ → ℤ
get_int cfg key default_val = int_of (get_str cfg key none) default_val

-- `strtod` gives no number for a text without one.
unfoldable pub double_of : {D : Type 0} → (Bytes → Option D) → Option Bytes → D → D
double_of strtod none default_val = default_val
double_of strtod (some val) default_val = elim (strtod val) [
  | none ↦ default_val
  | some result ↦ result
]

unfoldable pub get_double : {D : Type 0} → (Bytes → Option D) → Option Config → Option Bytes → D → D
unfolding double_of
get_double strtod cfg key default_val = double_of strtod (get_str cfg key none) default_val

unfoldable pub put : Config → Option ℕ → Bytes → Bytes → Config
put cfg (some idx) key value = set_value cfg idx value
put cfg none key value = if ltb (length cfg) max_entries then append_entry cfg key value else cfg

-- `config_set_str` behind its NULL tests
unfoldable pub set_key : Config → Bytes → Bytes → Config
set_key cfg key value = put cfg (find cfg key) key value

unfoldable pub set_str : Option Config → Option Bytes → Option Bytes → Option Config
set_str (some cfg) (some key) (some value) = some (set_key cfg key value)
set_str cfg _ _ = cfg

unfoldable pub set_int : Option Config → Option Bytes → ℤ → Option Config
set_int cfg key value = set_str cfg key (some (decimal value))
