-- ===== src/Config/Examples.antt =====
-- Runs and instances of the configuration.
use embedded_network_monitor.Prelude.{
  ◌+◌, ◌≡◌, refl, ◌&&◌, none, some, [], ◌∷◌, arith, Bytes, codes, length, replicate, if◌then◌else◌,
  str_eq, All, min, Option, ℕ, true, false,
}
use embedded_network_monitor.Prelude.Int.{pos, negsuc}
use embedded_network_monitor.Config.Entries.{
  Config, max_entries, val_max, copy_str, find, put, append_entry, set_value, get_value, set_key,
  get_int, set_int, get_double, double_of, get_str, value_at,
}
use embedded_network_monitor.Config.File.{
  load, save, load_lines, fgets_lines, load_line, load_pair, trim, trim_end, split_at_eq,
  config_load, config_save,
}
use embedded_network_monitor.Config.Text.{is_space}
use embedded_network_monitor.Config.Laws.{
  Fits, has_place, get_value-set_key, set_key-Fits, set_key_long,
}
use embedded_network_monitor.Config.RoundTrip.{IsClean, Fresh, load-save}
use embedded_network_monitor.Config.Loaded.{load-Fits}
use embedded_network_monitor.Config.Numbers.{get_int-set_int}
use embedded_network_monitor.Config.Order.{Same, set_key_comm}

abbrev table : Config
table =
    record { key = codes "dns_target"; value = codes "8.8.8.8" }
    ∷ record { key = codes "api_port"; value = codes "8080" }
    ∷ []

abbrev text : Bytes
text = codes "# comment\n dns_target = 8.8.8.8\n\nno value\napi_port=80\napi_port = 8080 \n"

load_text : load [] (some text) ≡ (table, pos 0)
unfolding load load_lines load_line load_pair fgets_lines trim split_at_eq find str_eq put
    append_entry set_value
load_text = refl

table-Fits : Fits table
table-Fits = record { entries_fit = omega arith; count_fits = omega arith }

table-IsClean : All IsClean table
unfolding trim_end is_space
table-IsClean = (
  record {
    key_first = (refl, omega arith);
    key_end = refl;
    key_bytes = omega arith;
    key_fits = omega arith;
    value_first = refl;
    value_end = refl;
    value_bytes = omega arith;
    value_fits = omega arith;
  },
  (
    record {
      key_first = (refl, omega arith);
      key_end = refl;
      key_bytes = omega arith;
      key_fits = omega arith;
      value_first = refl;
      value_end = refl;
      value_bytes = omega arith;
      value_fits = omega arith;
    },
    tt,
  ),
)

table-Fresh : Fresh [] table
unfolding find str_eq
table-Fresh = (refl, (refl, tt))

load-save_example : load [] (some (save table)) ≡ (table, pos 0)
load-save_example = load-save [] table table-IsClean table-Fresh (omega arith)

get_value-set_key_example :
    get_value (set_key table (codes "api_port") (codes "9000")) (codes "api_port") none ≡ (
      if str_eq (codes "api_port") (codes "api_port") && has_place table (codes "api_port")
      then some (copy_str val_max (codes "9000"))
      else get_value table (codes "api_port") none)
get_value-set_key_example =
    get_value-set_key table (codes "api_port") (codes "9000") (codes "api_port") none (omega arith)

set_key-Fits_run : Fits (set_key table (codes "wifi_ssid") (codes "home"))
set_key-Fits_run = set_key-Fits table (codes "wifi_ssid") (codes "home") table-Fits

abbrev long_key : Bytes
long_key = replicate 64 b'k'

set_key_long_example :
    (get_value (set_key table long_key (codes "1")) long_key none ≡ none)
    × (length (set_key table long_key (codes "1")) ≡ min max_entries (length table + 1))
set_key_long_example = set_key_long table long_key (codes "1") none table-Fits (omega arith)

get_int-set_int_example :
    get_int
      (set_int (some table) (some (codes "api_port")) (negsuc 41))
      (some (codes "api_port"))
      (pos 0)
    ≡ negsuc 41
unfolding find str_eq
get_int-set_int_example =
    get_int-set_int table (codes "api_port") (negsuc 41) (pos 0) (omega arith) refl (omega arith)

load-Fits_run : Fits (load table (some text)).0
load-Fits_run = load-Fits table (some text)

set_key_comm_example :
    Same
      (set_key (set_key [] (codes "a") (codes "1")) (codes "b") (codes "2"))
      (set_key (set_key [] (codes "b") (codes "2")) (codes "a") (codes "1"))
set_key_comm_example =
    set_key_comm [] (codes "a") (codes "1") (codes "b") (codes "2") (omega arith) (omega arith)
      (λ e. ground (arith, e)) (omega arith)

get_double_run :
    (strtod : Bytes → Option ℕ)
    → (get_double strtod (some (set_key [] (codes "k") (codes "12"))) (some (codes "k")) 7
        ≡ double_of strtod (some (codes "12")) 7)
      × (get_double strtod none (some (codes "k")) 7 ≡ 7)
unfolding get_double double_of get_str get_value value_at find set_key put append_entry str_eq
get_double_run strtod = (refl, refl)

-- The failures: no configuration, no path, and a file that does not open.
config_file_run :
    (config_load (λ path. none) none (some (codes "a")) ≡ (none, negsuc 0))
    × (config_load (λ path. none) (some []) none ≡ (some [], negsuc 0))
    × (config_load (λ path. none) (some (set_key [] (codes "k") (codes "1"))) (some (codes "a"))
        ≡ (some [], negsuc 0))
    × (config_save true none (some []) none ≡ (none, negsuc 0))
    × (config_save false (some (codes "x")) (some []) (some (codes "a"))
        ≡ (some (codes "x"), negsuc 0))
    × (config_save true (some (codes "x")) (some []) (some (codes "a")) ≡ (some [], pos 0))
unfolding config_load load config_save save
config_file_run = (refl, refl, refl, refl, refl, refl)
