-- ===== src/Wifi/Examples.antt =====
-- Runs of the WiFi manager.
use embedded_network_monitor.Prelude.Int.{pos, negsuc}
use embedded_network_monitor.Prelude.{
  min, ◌≡◌, refl, ap, true, Bool, List, ◌&&◌, none, some, [], ◌∷◌, arith, ltb, Bytes, codes, length,
  get_or, replicate, All, starts_with,
}
use embedded_network_monitor.Wifi.Networks.{Network, iw_lines, IsNetwork, filled}
use embedded_network_monitor.Wifi.Scanned.{IsToken, scan_text_lem}
use embedded_network_monitor.Wifi.Scan.{behind, scan_text, trim_ssid, blank_result, scan_lines}
use embedded_network_monitor.Tables.Files.{IsLine, no_newline, IsLine-test, file_of}
use embedded_network_monitor.Wifi.Manager.{Shell, disconnect, connect, init, Manager}
use embedded_network_monitor.Wifi.Runs.{
  IsManager, Reach-init-IsManager, next, here, connect_step, disconnect_step,
}
use embedded_network_monitor.Config.Text.{
  strtol, signed, unsigned, saturate_neg, skip_space, is_space, is_digit, starts_digit,
  digits_value, atoi,
}
use embedded_network_monitor.Wifi.Bounds.{Inside, scan_start}

abbrev home : Network
home = record {
  head =
      codes "BSS 02:00:00:00:00:01(on wlan0)"
      ∷ codes "\tlast seen: 8123.456s [boottime]"
      ∷ codes "\tTSF: 0 usec (0d, 00:00:00)"
      ∷ [];
  freq = codes "2412";
  upper = codes "\tbeacon interval: 100 TUs" ∷ codes "\tcapability: ESS Privacy (0x0411)" ∷ [];
  signal = codes "-40.00 dBm";
  lower = codes "\tlast seen: 120 ms ago" ∷ [];
  name = codes "home";
  elements =
      codes "\tSupported rates: 1.0* 2.0* 5.5* 11.0*" ∷ codes "\tDS Parameter set: channel 1" ∷ [];
}

abbrev cafe : Network
cafe = record {
  head =
      codes "BSS 02:00:00:00:00:02(on wlan0)"
      ∷ codes "\tlast seen: 8123.456s [boottime]"
      ∷ codes "\tTSF: 0 usec (0d, 00:00:00)"
      ∷ [];
  freq = codes "2437";
  upper = codes "\tbeacon interval: 100 TUs" ∷ codes "\tcapability: ESS Privacy (0x0411)" ∷ [];
  signal = codes "-80.00 dBm";
  lower = codes "\tlast seen: 120 ms ago" ∷ [];
  name = codes "cafe";
  elements =
      codes "\tSupported rates: 1.0* 2.0* 5.5* 11.0*" ∷ codes "\tDS Parameter set: channel 1" ∷ [];
}

home-IsNetwork : IsNetwork home
unfolding behind starts_with trim_ssid
home-IsNetwork = record {
  head_plain = ((refl, refl, refl), ((refl, refl, refl), ((refl, refl, refl), tt)));
  upper_plain = ((refl, refl, refl), ((refl, refl, refl), tt));
  lower_plain = ((refl, refl, refl), tt);
  elements_plain = ((refl, refl, refl), ((refl, refl, refl), tt));
  freq_signal = refl;
  freq_ssid = refl;
  signal_freq = refl;
  signal_ssid = refl;
  name_freq = refl;
  name_signal = refl;
  name_shown = refl;
}

cafe-IsNetwork : IsNetwork cafe
unfolding behind starts_with trim_ssid
cafe-IsNetwork = record {
  head_plain = ((refl, refl, refl), ((refl, refl, refl), ((refl, refl, refl), tt)));
  upper_plain = ((refl, refl, refl), ((refl, refl, refl), tt));
  lower_plain = ((refl, refl, refl), tt);
  elements_plain = ((refl, refl, refl), ((refl, refl, refl), tt));
  freq_signal = refl;
  freq_ssid = refl;
  signal_freq = refl;
  signal_ssid = refl;
  name_freq = refl;
  name_signal = refl;
  name_shown = refl;
}

IsToken-test : (s : Bytes) → IsLine 100 s → (ltb 0 (length s)) ≡ true → IsToken s
IsToken-test s h some_bytes = (h.0, ground arith)

abbrev is_token : Bytes → Bool
is_token s = (no_newline s && ltb (length s) 100) && ltb 0 (length s)

-- A test for it.
token : (s : Bytes) → is_token s ≡ true → IsToken s
token s h = IsToken-test s (IsLine-test 100 s (ground (arith, h))) (ground (arith, h))

abbrev all_tokens : List Bytes → Bool
all_tokens [] = true
all_tokens (s ∷ lines) = is_token s && all_tokens lines

All-IsToken : (lines : List Bytes) → all_tokens lines ≡ true → All IsToken lines
All-IsToken [] h = tt
All-IsToken (s ∷ lines) h = (token s (ground (arith, h)), All-IsToken lines (ground (arith, h)))

lines-IsToken : All IsToken (iw_lines (home ∷ cafe ∷ []))
lines-IsToken = All-IsToken (iw_lines (home ∷ cafe ∷ [])) refl

scan_text_lem_example :
    scan_text (file_of (iw_lines (home ∷ cafe ∷ []))) (replicate 16 blank_result)
    ≡ (min 2 17, filled (home ∷ cafe ∷ []) (replicate 16 blank_result))
scan_text_lem_example =
    scan_text_lem (home ∷ cafe ∷ []) (replicate 16 blank_result)
      (home-IsNetwork, (cafe-IsNetwork, tt)) lines-IsToken refl

-- The network that is near is shown with the signal of the one that is far.
misplaced_run :
    (get_or
      (scan_text (file_of (iw_lines (home ∷ cafe ∷ []))) (replicate 16 blank_result)).1
      0
      blank_result).signal_dbm
    ≡ negsuc 79
unfolding atoi strtol signed unsigned saturate_neg skip_space is_space is_digit starts_digit
    digits_value
misplaced_run = ap (λ r. (get_or r.1 0 blank_result).signal_dbm) scan_text_lem_example

-- a shell in which every command succeeds and writes nothing
abbrev quiet : Shell
quiet cmd = (pos 0, [])

abbrev offline : Manager
offline =
    (disconnect
      (connect quiet (some (codes "home")) none
        (init (λ path. true) (codes "wlan0" ∷ []) quiet (λ iface. none)).1).1).1

Reach-init-IsManager_example :
    IsManager offline
    × ((lines : List Bytes)
        → Inside
            (length offline.scan_results)
            (scan_lines lines (scan_start offline.scan_results)).cur)
Reach-init-IsManager_example =
    Reach-init-IsManager (λ path. true) (codes "wlan0" ∷ []) quiet (λ iface. none) offline
      (next (next here (connect_step quiet (some (codes "home")) none)) disconnect_step)
