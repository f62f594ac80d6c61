-- ===== src/Wifi/Runs.antt =====
-- What holds of the WiFi manager after any operations.
use embedded_network_monitor.Prelude.{
  ℕ, ◌+◌, ◌≤◌, ◌<◌, ◌≡◌, refl, inl, inr, Bool, true, false, not, ◌&&◌, ◌||◌, Option, none, some,
  List, [], arith, ◌==◌, if◌then◌else◌, Bool-cases, Bytes, codes, length, length-take,
}
use embedded_network_monitor.Wifi.Scan.{max_networks, ssid_max, behind, scan_lines}
use embedded_network_monitor.Wifi.Manager.{
  Manager, read_operstate, read_ssid, read_link, update, copy_ssid, until_newline, is_there, Shell,
  no_manager, init_found, scan_parsed, set_enabled, init, scan, detect_wifi_iface, connect,
  disconnect, link_cmd, enable_cmd, scan_output, passphrase_cmd, captured, succeeded, text_of,
  supplicant_cmd,
}
use embedded_network_monitor.Wifi.Bounds.{scan_text_in, Inside, scan_start, scan_lines-Inside}

-- A manager that is not connected shows no network, its texts fit their arrays, and its results fill
-- theirs, with a count of at most one more.
pub record IsManager (m : Manager) : Type 0 where
  pub offline : m.connected ≡ 0 → m.current_ssid ≡ []
  pub ssid_fits : length m.current_ssid < ssid_max
  pub results_size : length m.scan_results ≡ max_networks
  pub count_in : m.num_scan_results ≤ max_networks + 1

IsManager-off :
    (m : Manager) (enabled : ℕ)
    → IsManager m
    → IsManager (record m { enabled = enabled; connected = 0; current_ssid = [] })
IsManager-off m enabled h = record {
  offline = λ e. refl;
  ssid_fits = omega arith;
  results_size = h.results_size;
  count_in = h.count_in;
}

IsManager-on :
    (m : Manager) (ssid : Bytes)
    → IsManager m
    → IsManager (record m { current_ssid = copy_ssid ssid; connected = 1 })
IsManager-on m ssid h = record {
  offline = λ e. absurd (omega arith);
  ssid_fits = omega (arith, length-take 63 ssid);
  results_size = h.results_size;
  count_in = h.count_in;
}

IsManager-enabled :
    (m : Manager) (enabled : ℕ) → IsManager m → IsManager (record m { enabled = enabled })
IsManager-enabled m enabled h = record {
  offline = h.offline;
  ssid_fits = h.ssid_fits;
  results_size = h.results_size;
  count_in = h.count_in;
}

read_operstate-IsManager :
    (file : Option Bytes) (m : Manager) → IsManager m → IsManager (read_operstate file m)
unfolding read_operstate
read_operstate-IsManager none m h = h
read_operstate-IsManager (some file) m h = elim (Bool-cases (length file == 0)) [
  | inl e ↦ rw e h
  | inr e ↦ rw e (IsManager-enabled m _ h)
]

read_ssid-IsManager : (o : Option Bytes) (m : Manager) → IsManager m → IsManager (read_ssid o m)
unfolding read_ssid
read_ssid-IsManager none m h = h
read_ssid-IsManager (some line) m h = IsManager-on m (until_newline line) h

read_link-IsManager : (buf : Bytes) (m : Manager) → IsManager m → IsManager (read_link buf m)
unfolding read_link
read_link-IsManager buf m h = elim (Bool-cases (is_there (behind (codes "Not connected") buf))) [
  | inl e ↦ rw e (IsManager-off m m.enabled h)
  | inr e ↦ rw e (read_ssid-IsManager _ m h)
]

if-IsManager :
    (b : Bool) (x y : Manager) → IsManager x → IsManager y → IsManager (if b then x else y)
if-IsManager true x y p q = p
if-IsManager false x y p q = q

no_manager-IsManager : IsManager no_manager
no_manager-IsManager = record {
  offline = λ e. refl;
  ssid_fits = omega arith;
  results_size = refl;
  count_in = omega arith;
}

update-IsManager :
    (run : Shell) (operstate : Option Bytes) (m : Manager)
    → IsManager m
    → IsManager (update run operstate m)
unfolding update
update-IsManager run operstate m h =
    let read = read_operstate-IsManager operstate m h in
    let status = (run (link_cmd m.iface)).0 in
    let buf = captured 256 (run (link_cmd m.iface)).1 in
    let old = read_operstate operstate m in
    if-IsManager m.initialized (if succeeded status then read_link buf old else old) m
      (if-IsManager (succeeded status) (read_link buf old) old (read_link-IsManager buf old read)
        read)
      h

init_found-IsManager :
    (iface : Option Bytes) (run : Shell) (operstate : Bytes → Option Bytes)
    → IsManager (init_found iface run operstate).1
unfolding init_found
init_found-IsManager none run operstate = no_manager-IsManager
init_found-IsManager (some iface) run operstate =
    update-IsManager run (operstate iface)
      (record no_manager { initialized = true; enabled = 1; iface = iface })
      (record {
        offline = λ e. refl;
        ssid_fits = omega arith;
        results_size = refl;
        count_in = omega arith;
      })

scan_parsed-IsManager :
    (o : Option Bytes) (m : Manager) → IsManager m → IsManager (scan_parsed o m).1
unfolding scan_parsed
scan_parsed-IsManager none m h = h
scan_parsed-IsManager (some buf) m h =
    let (count, size) = scan_text_in buf m.scan_results h.results_size in
    record { offline = h.offline; ssid_fits = h.ssid_fits; results_size = size; count_in = count }

-- the state beside a result
if-second-IsManager :
    {A : Type 0} (b : Bool) (x y : A × Manager)
    → IsManager x.1
    → IsManager y.1
    → IsManager (if b then x else y).1
if-second-IsManager true x y p q = p
if-second-IsManager false x y p q = q

set_enabled-IsManager :
    (run : Shell) (enable : ℕ) (m : Manager) → IsManager m → IsManager (set_enabled run enable m).1
unfolding set_enabled
set_enabled-IsManager run enable m h =
    let status = (run (enable_cmd enable m.iface)).0 in
    let off = record m { enabled = enable; connected = 0; current_ssid = [] } in
    let on = record m { enabled = enable } in
    let switched = if enable == 0 then off else on in
    if-second-IsManager m.initialized (some status, if succeeded status then switched else m)
      (none, m)
      (if-IsManager (succeeded status) switched m
        (if-IsManager (enable == 0) off on (IsManager-off m enable h)
          (IsManager-enabled m enable h))
        h)
      h

scan-IsManager : (run : Shell) (m : Manager) → IsManager m → IsManager (scan run m).1
unfolding scan
scan-IsManager run m h =
    if-second-IsManager (m.initialized && not (m.enabled == 0))
      (scan_parsed (scan_output run m.iface) m) (none, m)
      (scan_parsed-IsManager (scan_output run m.iface) m h) h

connect-IsManager :
    (run : Shell) (ssid password : Option Bytes) (m : Manager)
    → IsManager m
    → IsManager (connect run ssid password m).1
unfolding connect
connect-IsManager run ssid password m h =
    let made = (run (passphrase_cmd (text_of ssid) (text_of password) m.iface)).0 in
    let started = (run (supplicant_cmd m.iface)).0 in
    let joined = record m { current_ssid = copy_ssid (text_of ssid); connected = 1 } in
    let failed : Option ℕ × Manager = (none, m) in
    let last : Option ℕ × Manager = if succeeded started then (some 0, joined) else failed in
    let refused = not (length (text_of password) == 0) && not (succeeded made) in
    if-second-IsManager (not m.initialized || m.enabled == 0 || length (text_of ssid) == 0) failed
      (if refused then failed else last) h
      (if-second-IsManager refused failed last h (
        if-second-IsManager (succeeded started) (some 0, joined) failed
          (IsManager-on m (text_of ssid) h) h))

disconnect-IsManager : (m : Manager) → IsManager m → IsManager (disconnect m).1
unfolding disconnect
disconnect-IsManager m h =
    if-second-IsManager m.initialized (some 0, record m { connected = 0; current_ssid = [] })
      (none, m) (IsManager-off m m.enabled h) h

-- One operation, with the shell as it is then.
pub data Step (m : Manager) : Manager → Type 0 where
  enable_step : (run : Shell) (enable : ℕ) → Step m (set_enabled run enable m).1
  scan_step : (run : Shell) → Step m (scan run m).1
  connect_step :
      (run : Shell) (ssid password : Option Bytes) → Step m (connect run ssid password m).1
  disconnect_step : Step m (disconnect m).1
  update_step : (run : Shell) (operstate : Option Bytes) → Step m (update run operstate m)

pub data Reach (m : Manager) : Manager → Type 0 where
  here : Reach m m
  next : {t u : Manager} → Reach m t → Step t u → Reach m u

Step-IsManager : {m t : Manager} → Step m t → IsManager m → IsManager t
Step-IsManager {m = m} (enable_step run enable) h = set_enabled-IsManager run enable m h
Step-IsManager {m = m} (scan_step run) h = scan-IsManager run m h
Step-IsManager {m = m} (connect_step run ssid password) h = connect-IsManager run ssid password m h
Step-IsManager {m = m} disconnect_step h = disconnect-IsManager m h
Step-IsManager {m = m} (update_step run operstate) h = update-IsManager run operstate m h

Reach-IsManager : {m t : Manager} → Reach m t → IsManager m → IsManager t
Reach-IsManager here h = h
Reach-IsManager (next r s) h = Step-IsManager s (Reach-IsManager r h)

-- After the start and any operations, whatever the shell answers: a manager that is not connected has
-- no current network, the name of the network fits its array, and the results fill theirs of 16,
-- with a count of at most 17. The next scan writes inside that array: after any lines of output, the
-- entry that the parser writes to has an index below 16.
pub Reach-init-IsManager :
    (access : Bytes → Bool) (names : List Bytes) (run : Shell) (operstate : Bytes → Option Bytes)
    (m : Manager)
    → Reach (init access names run operstate).1 m
    → IsManager m
      × ((lines : List Bytes)
          → Inside (length m.scan_results) (scan_lines lines (scan_start m.scan_results)).cur)
unfolding init
Reach-init-IsManager access names run operstate m r =
    let ok =
      Reach-IsManager r (init_found-IsManager (detect_wifi_iface access names) run operstate) in
    (ok, λ lines. scan_lines-Inside lines m.scan_results ok.results_size)
