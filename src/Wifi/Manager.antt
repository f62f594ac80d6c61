-- ===== src/Wifi/Manager.antt =====
-- The operations of the WiFi manager on its static state. `run` is the shell: the status that `pclose`
-- gives for a command, and what the command writes. A result of -1 is `none`.
use embedded_network_monitor.Prelude.{
  ℕ, ◌-◌, Bool, true, false, not, ◌&&◌, ◌||◌, Option, none, some, List, [], ◌∷◌, ◌++◌, ◌==◌,
  if◌then◌else◌, Bytes, codes, str_eq, length, get_or, take, replicate,
}
use embedded_network_monitor.Wifi.Scan.{
  ScanResult, max_networks, ssid_max, behind, scan_text, blank_result,
}
use embedded_network_monitor.Prelude.Int.{ℤ, pos, negsuc}

abbrev pub iface_max : ℕ
iface_max = 16

-- `wifi_mgr_state_t` and `g_initialized`
pub record Manager : Type 0 where
  pub initialized : Bool
  pub enabled : ℕ
  pub connected : ℕ
  pub iface : Bytes
  pub current_ssid : Bytes
  pub num_scan_results : ℕ
  pub scan_results : List ScanResult

-- the status, -1 for a command that does not start, and the output
abbrev pub Shell : Type 0
Shell = Bytes → ℤ × Bytes

-- what `run_cmd` leaves in a buffer of `buf_len` bytes, up to the first NUL
unfoldable pub captured : ℕ → Bytes → Bytes
captured buf_len output = take (buf_len - 1) output

abbrev pub succeeded : ℤ → Bool
succeeded (pos n) = n == 0
succeeded (negsuc n) = false

-- `access` is whether a path exists; the entries of /sys/class/net in the order of the directory
unfoldable pub detect_wifi_iface : (Bytes → Bool) → List Bytes → Option Bytes
detect_wifi_iface access [] = none
detect_wifi_iface access (name ∷ names) =
    let rest = detect_wifi_iface access names in
    if get_or name 0 0 == b'.' || str_eq name (codes "lo")
    then rest
    else if access (take 255 (codes "/sys/class/net/" ++ name ++ codes "/wireless"))
    then some (take (iface_max - 1) name)
    else rest

abbrev pub no_manager : Manager
no_manager = record {
  initialized = false;
  enabled = 0;
  connected = 0;
  iface = [];
  current_ssid = [];
  num_scan_results = 0;
  scan_results = replicate max_networks blank_result;
}

-- `strncpy` of an SSID
abbrev pub copy_ssid : Bytes → Bytes
copy_ssid ssid = take (ssid_max - 1) ssid

-- the text up to a newline
unfoldable pub until_newline : Bytes → Bytes
until_newline [] = []
until_newline (c ∷ s) = let rest = until_newline s in if c == 10 then [] else c ∷ rest

-- the first line of `operstate`, without its newline; a file that does not open or is empty is `none`
unfoldable pub read_operstate : Option Bytes → Manager → Manager
unfolding until_newline
read_operstate none m = m
read_operstate (some file) m = if length file == 0 then m else record m {
  enabled = if str_eq (until_newline (take 31 file)) (codes "down") then 0 else 1;
}

unfoldable pub read_ssid : Option Bytes → Manager → Manager
unfolding until_newline
read_ssid none m = m
read_ssid (some ssid_line) m = record m {
  current_ssid = copy_ssid (until_newline ssid_line);
  connected = 1;
}

unfoldable pub is_there : Option Bytes → Bool
is_there none = false
is_there (some s) = true

-- the output of `iw dev <iface> link`
unfoldable pub read_link : Bytes → Manager → Manager
unfolding read_ssid behind is_there
read_link buf m =
    if is_there (behind (codes "Not connected") buf)
    then record m { connected = 0; current_ssid = [] }
    else read_ssid (behind (codes "SSID: ") buf) m

abbrev pub link_cmd : Bytes → Bytes
link_cmd iface = take 127 (codes "iw dev " ++ iface ++ codes " link 2>/dev/null")

unfoldable pub update : Shell → Option Bytes → Manager → Manager
unfolding read_operstate read_link captured
update run operstate m =
    let (status, output) = run (link_cmd m.iface) in
    let read = read_operstate operstate m in
    if m.initialized
    then if succeeded status then read_link (captured 256 output) read else read
    else m

-- with the file `operstate` of an interface
unfoldable pub init_found : Option Bytes → Shell → (Bytes → Option Bytes) → Option ℕ × Manager
unfolding update
init_found none run operstate = (none, no_manager)
init_found (some iface) run operstate = (
  some 0,
  update run (operstate iface)
      (record no_manager { initialized = true; enabled = 1; iface = iface }),
)

unfoldable pub init :
    (Bytes → Bool) → List Bytes → Shell → (Bytes → Option Bytes) → Option ℕ × Manager
unfolding init_found detect_wifi_iface
init access names run operstate = init_found (detect_wifi_iface access names) run operstate

abbrev pub enable_cmd : ℕ → Bytes → Bytes
enable_cmd enable iface = take 127 (
    codes "ip link set "
    ++ iface
    ++ (if enable == 0 then codes " down" else codes " up")
    ++ codes " 2>/dev/null")

unfoldable pub set_enabled : Shell → ℕ → Manager → Option ℤ × Manager
set_enabled run enable m =
    let (status, output) = run (enable_cmd enable m.iface) in
    let switched =
      if enable == 0
      then record m { enabled = enable; connected = 0; current_ssid = [] }
      else record m { enabled = enable } in
    if m.initialized then (some status, if succeeded status then switched else m) else (none, m)

-- the output of `iw`, or of `iwlist` if `iw` fails
unfoldable pub scan_output : Shell → Bytes → Option Bytes
unfolding captured
scan_output run iface =
    let (status, output) = run (take 127 (codes "iw dev " ++ iface ++ codes " scan 2>/dev/null")) in
    let (status', output') =
      run (take 127 (codes "iwlist " ++ iface ++ codes " scan 2>/dev/null")) in
    if succeeded status
    then some (captured 4096 output)
    else if succeeded status'
    then some (captured 4096 output')
    else none

unfoldable pub scan_parsed : Option Bytes → Manager → Option ℕ × Manager
unfolding scan_text
scan_parsed none m = (none, m)
scan_parsed (some buf) m =
    let (num, results) = scan_text buf m.scan_results in
    (some 0, record m { num_scan_results = num; scan_results = results })

unfoldable pub scan : Shell → Manager → Option ℕ × Manager
unfolding scan_parsed scan_output
scan run m =
    if m.initialized && not (m.enabled == 0)
    then scan_parsed (scan_output run m.iface) m
    else (none, m)

abbrev pub conf_path : Bytes → Bytes
conf_path iface = codes "/tmp/wpa_" ++ iface ++ codes ".conf"

abbrev pub passphrase_cmd : Bytes → Bytes → Bytes → Bytes
passphrase_cmd ssid password iface = take 511 (
    codes "wpa_passphrase '"
    ++ ssid
    ++ codes "' '"
    ++ password
    ++ codes "' > "
    ++ conf_path iface
    ++ codes " 2>/dev/null")

abbrev pub supplicant_cmd : Bytes → Bytes
supplicant_cmd iface = take 511 (
    codes "wpa_supplicant -B -i "
    ++ iface
    ++ codes " -c "
    ++ conf_path iface
    ++ codes " 2>/dev/null")

abbrev pub text_of : Option Bytes → Bytes
text_of none = []
text_of (some s) = s

-- NULL for a missing SSID or password. The commands whose status is not looked at are left out.
unfoldable pub connect : Shell → Option Bytes → Option Bytes → Manager → Option ℕ × Manager
connect run ssid password m =
    let (made, out) = run (passphrase_cmd (text_of ssid) (text_of password) m.iface) in
    let (started, out') = run (supplicant_cmd m.iface) in
    let joined = record m { current_ssid = copy_ssid (text_of ssid); connected = 1 } in
    if not m.initialized || m.enabled == 0 || length (text_of ssid) == 0
    then (none, m)
    else if not (length (text_of password) == 0) && not (succeeded made)
    then (none, m)
    else if succeeded started
    then (some 0, joined)
    else (none, m)

unfoldable pub disconnect : Manager → Option ℕ × Manager
disconnect m =
    if m.initialized then (some 0, record m { connected = 0; current_ssid = [] }) else (none, m)
