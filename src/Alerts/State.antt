-- ===== src/Alerts/State.antt =====
-- State and operations of alerts.c. `g_alert_log` and `g_hyst_counters` are lists of 64 and of 8; a row
-- of counters has a field for each alert type that uses one. `D` stands for `double`. `now` is the
-- wall clock, read as the same second throughout one check.
use embedded_network_monitor.Prelude.{
  ℕ, suc, ◌+◌, ◌%◌, ◌^◌, Bool, true, false, not, ◌&&◌, ◌||◌, Option, none, some, List, [], ◌∷◌, map,
  Bytes, codes, leb, ltb, ◌==◌, if◌then◌else◌, get_or, set, take, replicate, ◌-◌,
}
use embedded_network_monitor.Prelude.Floating.{Floating}
use embedded_network_monitor.NetState.{max_interfaces, iface_name_max, IfaceState, NetState}
use embedded_network_monitor.Config.Entries.{Config, get_value}
use embedded_network_monitor.Alerts.Ignore.{is_ignored_iface, parse_ignore}

abbrev pub max_alerts : ℕ
max_alerts = 64

abbrev pub hysteresis : ℕ
hysteresis = 3

-- `alert_type_t`
pub data AlertType : Type 0 where
  iface_down high_bandwidth packet_errors packet_drops gateway_unreachable : AlertType
  dns_failure high_latency : AlertType

-- `alert_severity_t`
pub data Severity : Type 0 where
  info warning critical : Severity

-- `alert_entry_t`
pub record AlertEntry : Type 0 where
  pub type : AlertType
  pub severity : Severity
  pub timestamp : ℕ
  pub iface : Bytes
  pub message : Bytes
  pub active : ℕ

-- a row of `g_hyst_counters`
pub record Counters : Type 0 where
  pub down : ℕ
  pub errors : ℕ
  pub gateway : ℕ
  pub dns : ℕ

abbrev pub no_counts : Counters
no_counts = record { down = 0; errors = 0; gateway = 0; dns = 0 }

abbrev pub blank_entry : AlertEntry
blank_entry = record {
  type = iface_down;
  severity = info;
  timestamp = 0;
  iface = [];
  message = [];
  active = 0;
}

-- the static variables of alerts.c
pub record Alerts : Type 0 where
  pub log : List AlertEntry
  pub count : ℕ
  pub head : ℕ
  pub active_count : ℕ
  pub hyst : List Counters
  pub ignore : List Bytes

-- what `push_alert` writes; `iface` is empty for NULL
unfoldable pub entry : ℕ → AlertType → Severity → Bytes → Bytes → AlertEntry
entry now type sev iface msg = record {
  type = type;
  severity = sev;
  timestamp = now % 2 ^ 32;
  iface = take (iface_name_max - 1) iface;
  message = take 127 msg;
  active = 1;
}

unfoldable pub push_entry : Alerts → AlertEntry → Alerts
push_entry s e = record s {
  log = set s.log s.head e;
  count = if ltb s.count max_alerts then s.count + 1 else s.count;
  head = (s.head + 1) % max_alerts;
  active_count = s.active_count + 1;
}

unfoldable pub push_alert : Alerts → ℕ → AlertType → Severity → Bytes → Bytes → Alerts
push_alert s now type sev iface msg = push_entry s (entry now type sev iface msg)

unfoldable pub ignore_value : Option Bytes → Bytes
ignore_value none = []
ignore_value (some v) = v

unfoldable pub init : Config → Alerts
unfolding ignore_value
init cfg = record {
  log = replicate max_alerts blank_entry;
  count = 0;
  head = 0;
  active_count = 0;
  hyst = replicate max_interfaces no_counts;
  ignore = parse_ignore (ignore_value (get_value cfg (codes "alert_ignore_ifaces") (some [])));
}

-- the counter after one look at its condition, and whether the alert is due
unfoldable pub hyst_step : Bool → ℕ → ℕ × Bool
hyst_step bad c =
    if bad then if leb hysteresis (c + 1) then (0, true) else (c + 1, false) else (0, false)

abbrev pub row : Alerts → ℕ → Counters
row s i = get_or s.hyst i no_counts

abbrev pub set_row : Alerts → ℕ → Counters → Alerts
set_row s i r = record s { hyst = set s.hyst i r }

module _ {D : Type 0} ⦃f : Floating D⦄ where
  abbrev pub is_down : IfaceState D → Bool
  is_down iface = iface.info.is_up == 0 || iface.info.is_running == 0

  abbrev pub has_errors : IfaceState D → Bool
  has_errors iface =
      f.gtb (f.add iface.rates.rx_errors_per_sec iface.rates.tx_errors_per_sec) (f.of_ℕ 10)

  unfoldable pub check_down : Alerts → ℕ → ℕ → IfaceState D → Alerts
  check_down s now i iface =
      let (c, due) = hyst_step (is_down iface) (row s i).down in
      let t = set_row s i (record (row s i) { down = c }) in
      if due
      then push_alert t now iface_down critical iface.info.name (codes "Interface is down")
      else t

  unfoldable pub check_errors : Alerts → ℕ → ℕ → IfaceState D → Alerts
  check_errors s now i iface =
      let (c, due) = hyst_step (has_errors iface) (row s i).errors in
      let t = set_row s i (record (row s i) { errors = c }) in
      if due
      then push_alert t now packet_errors warning iface.info.name (codes "High packet error rate")
      else t

  unfoldable pub check_iface : Alerts → ℕ → ℕ → IfaceState D → Alerts
  check_iface s now i iface =
      if is_ignored_iface s.ignore iface.info.name
      then s
      else check_errors (check_down s now i iface) now i iface

  -- the `for` loop from interface `i` on
  unfoldable pub check_ifaces : Alerts → ℕ → ℕ → List (IfaceState D) → Alerts
  check_ifaces s now i [] = s
  check_ifaces s now i (iface ∷ ifaces) =
      check_ifaces (check_iface s now i iface) now (suc i) ifaces

  unfoldable pub check_gateway : Alerts → ℕ → NetState D → Alerts
  check_gateway s now state =
      let (c, due) = hyst_step (state.connectivity.gateway_reachable == 0) (row s 0).gateway in
      let t = set_row s 0 (record (row s 0) { gateway = c }) in
      if due
      then push_alert t now gateway_unreachable critical [] (codes "Gateway unreachable")
      else t

  unfoldable pub check_latency : Alerts → ℕ → NetState D → Alerts
  check_latency s now state =
      let reachable = not (state.connectivity.gateway_reachable == 0) in
      if reachable && f.gtb state.connectivity.gateway_latency_ms (f.of_ℕ 500)
      then push_alert s now high_latency critical [] (codes "Very high gateway latency")
      else if reachable && f.gtb state.connectivity.gateway_latency_ms (f.of_ℕ 100)
      then push_alert s now high_latency warning [] (codes "High gateway latency")
      else s

  unfoldable pub check_dns : Alerts → ℕ → NetState D → Alerts
  check_dns s now state =
      let (c, due) = hyst_step (state.connectivity.dns_reachable == 0) (row s 0).dns in
      let t = set_row s 0 (record (row s 0) { dns = c }) in
      if due then push_alert t now dns_failure warning [] (codes "DNS resolution failed") else t

-- the number of entries with `active` set
unfoldable pub count_active : List AlertEntry → ℕ
count_active [] = 0
count_active (e ∷ log) = let rest = count_active log in if e.active == 0 then rest else suc rest

-- the loop that ends `alerts_check`
unfoldable pub recount : Alerts → Alerts
unfolding count_active
recount s = record s { active_count = s.active_count + count_active (take s.count s.log) }

unfoldable pub check : {D : Type 0} ⦃f : Floating D⦄ → Alerts → ℕ → NetState D → Alerts
check s now state =
    let s₀ = record s { active_count = 0 } in
    let s₁ = check_ifaces s₀ now 0 state.ifaces in
    let s₂ = check_gateway s₁ now state in
    let s₃ = check_latency s₂ now state in recount (check_dns s₃ now state)

-- `alerts_get_log`: the array, its count, and the number of active alerts
unfoldable pub get_log : Alerts → List AlertEntry × ℕ × ℕ
get_log s = (s.log, s.count, s.active_count)

unfoldable pub deactivate : AlertEntry → AlertEntry
deactivate e = record e { active = 0 }

unfoldable pub clear_all : Alerts → Alerts
unfolding deactivate
clear_all s = record s { log = map deactivate s.log; active_count = 0 }
