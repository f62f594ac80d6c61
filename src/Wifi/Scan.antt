-- ===== src/Wifi/Scan.antt =====
-- The parser of `wifi_mgr_scan`, on the output of `iw` that fills its buffer.
use embedded_network_monitor.Prelude.{
  ℕ, ◌+◌, ◌-◌, Bool, false, not, ◌&&◌, ◌||◌, Option, none, some, List, [], ◌∷◌, ◌++◌, ltb, ◌==◌,
  if◌then◌else◌, Bytes, codes, length, get_or, set, take, drop, starts_with,
}
use embedded_network_monitor.Prelude.Int.{ℤ, pos}
use embedded_network_monitor.Config.Text.{atoi}
use embedded_network_monitor.Collector.State.{modify}

abbrev pub max_networks : ℕ
max_networks = 16

abbrev pub ssid_max : ℕ
ssid_max = 64

-- `wifi_scan_result_t`, of which `is_open` is never set
pub record ScanResult : Type 0 where
  pub ssid : Bytes
  pub signal_dbm : ℤ
  pub frequency_mhz : ℤ

abbrev pub blank_result : ScanResult
blank_result = record { ssid = []; signal_dbm = pos 0; frequency_mhz = pos 0 }

-- what stands behind the first `pattern` of a text: `strstr` and the length of the pattern
unfoldable pub behind : Bytes → Bytes → Option Bytes
unfolding starts_with
behind pattern [] = none
behind pattern (c ∷ s) =
    let rest = behind pattern s in
    if starts_with (c ∷ s) pattern then some (drop (length pattern) (c ∷ s)) else rest

abbrev pub is_blank : ℕ → Bool
is_blank c = c == 10 || c == 13 || c == 32

-- the trailing white space cut off
unfoldable pub trim_ssid : Bytes → Bytes
trim_ssid [] = []
trim_ssid (c ∷ s) =
    let rest = trim_ssid s in if is_blank c && length rest == 0 then [] else c ∷ rest

-- `num` is the count of the results, `cur` the index that the pointer has
pub record Scan : Type 0 where
  pub num : ℕ
  pub cur : Option ℕ
  pub results : List ScanResult

-- `cur && cur->ssid[0] != '\0'`
unfoldable pub has_ssid : Option ℕ → List ScanResult → Bool
has_ssid none results = false
has_ssid (some k) results = not (length (get_or results k blank_result).ssid == 0)

unfoldable pub count_cur : Scan → ℕ
unfolding has_ssid
count_cur s = if has_ssid s.cur s.results then s.num + 1 else s.num

unfoldable pub ssid_step : Option Bytes → Scan → Scan
unfolding count_cur trim_ssid
ssid_step none s = s
ssid_step (some ssid) s =
    if ltb (count_cur s) max_networks
    then record {
      num = count_cur s;
      cur = some (count_cur s);
      results =
          set s.results (count_cur s)
            (record blank_result { ssid = trim_ssid (take (ssid_max - 1) ssid) });
    }
    else record s { num = count_cur s }

-- an update of the result that the pointer has, if it has one
unfoldable pub at_cur : (ScanResult → ScanResult) → Option ℕ → List ScanResult → List ScanResult
unfolding modify
at_cur change none results = results
at_cur change (some k) results = modify results k change

unfoldable pub signal_step : Option Bytes → Scan → Scan
unfolding at_cur atoi
signal_step none s = s
signal_step (some text) s = record s {
  results = at_cur (λ r. record r { signal_dbm = atoi text }) s.cur s.results;
}

unfoldable pub freq_step : Option Bytes → Scan → Scan
unfolding at_cur atoi
freq_step none s = s
freq_step (some text) s = record s {
  results = at_cur (λ r. record r { frequency_mhz = atoi text }) s.cur s.results;
}

-- the body of the loop
unfoldable pub scan_line : Bytes → Scan → Scan
unfolding ssid_step signal_step freq_step behind
scan_line line s =
    freq_step (behind (codes "freq: ") line)
      (signal_step (behind (codes "signal: ") line) (ssid_step (behind (codes "SSID: ") line) s))

unfoldable pub scan_lines : List Bytes → Scan → Scan
unfolding scan_line
scan_lines [] s = s
scan_lines (line ∷ lines) s =
    let rest = scan_lines lines (scan_line line s) in if ltb s.num max_networks then rest else s

-- the tokens of `strtok` at newlines, behind a token that has begun with `got`
unfoldable pub tokens : Bytes → Bytes → List Bytes
tokens got [] = if length got == 0 then [] else got ∷ []
tokens got (c ∷ s) =
    let ended = tokens [] s in
    let longer = tokens (got ++ c ∷ []) s in
    if c == 10 then if length got == 0 then ended else got ∷ ended else longer

-- the results and their count; the pointer starts as NULL, the results as they were
unfoldable pub scan_text : Bytes → List ScanResult → ℕ × List ScanResult
unfolding scan_lines tokens count_cur
scan_text buf results =
    let s = scan_lines (tokens [] buf) (record { num = 0; cur = none; results = results }) in
    (count_cur s, s.results)
