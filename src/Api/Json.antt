-- ===== src/Api/Json.antt =====
-- src/api/api_json.c. A `const char *` or `char` array is its text; `int` and `float` values are turned
-- into `double`. What `gethostname` gives is an argument, and so is the state of the alerts.
use embedded_network_monitor.Prelude.{
  ℕ, suc, Bool, not, List, [], ◌∷◌, map, ◌==◌, if◌then◌else◌, Bytes, codes, length, take,
}
use embedded_network_monitor.Alerts.State.{
  iface_down, high_bandwidth, packet_errors, packet_drops, gateway_unreachable, dns_failure,
  high_latency, info, warning, critical, AlertType, Severity, AlertEntry, get_log, Alerts,
}
use embedded_network_monitor.NetState.{
  router, switch, ap, other, InfraType, IfaceState, NetStats, NetRates, WifiInfo, NetState,
  InfraDevice, Hop, WanDiscovery, Connection,
}
use embedded_network_monitor.Prelude.Floating.{Floating}
use embedded_network_monitor.Api.Cjson.{Builder, object, array}
use embedded_network_monitor.Prelude.Int.{ℤ, pos, negsuc}
use embedded_network_monitor.Config.Entries.{Config}
use embedded_network_monitor.Format.{format_ip, format_mac}

abbrev pub alert_code : AlertType → ℕ
alert_code iface_down = 0
alert_code high_bandwidth = 1
alert_code packet_errors = 2
alert_code packet_drops = 3
alert_code gateway_unreachable = 4
alert_code dns_failure = 5
alert_code high_latency = 6

abbrev pub severity_code : Severity → ℕ
severity_code info = 0
severity_code warning = 1
severity_code critical = 2

abbrev pub infra_code : InfraType → ℕ
infra_code router = 0
infra_code switch = 1
infra_code ap = 2
infra_code other = 3

-- the `bool` of an `int`
abbrev pub set_flag : ℕ → Bool
set_flag n = not (n == 0)

module _ (D : Type 0) {J : Type 0} ⦃f : Floating D⦄ ⦃b : Builder D J⦄ where
  abbrev pub number_item : ℕ → J
  number_item n = b.create_number (f.of_ℕ n)

  abbrev pub signed_item : ℤ → J
  signed_item (pos n) = b.create_number (f.of_ℕ n)
  signed_item (negsuc n) = b.create_number (f.sub f.zero_d (f.of_ℕ (suc n)))

  unfoldable pub config_fields : Config → List (Bytes × J)
  config_fields [] = []
  config_fields (e ∷ cfg) = (e.key, b.create_string e.value) ∷ config_fields cfg

  unfoldable pub api_json_config : Config → J
  unfolding object config_fields
  api_json_config cfg = object D (config_fields cfg)

  unfoldable pub alert_json : AlertEntry → J
  unfolding object
  alert_json a = object D (
      (codes "type", number_item (alert_code a.type))
      ∷ (codes "severity", number_item (severity_code a.severity))
      ∷ (codes "timestamp", number_item a.timestamp)
      ∷ (codes "interface", b.create_string a.iface)
      ∷ (codes "message", b.create_string a.message)
      ∷ (codes "active", b.create_bool (set_flag a.active))
      ∷ [])

  unfoldable pub api_json_alerts : Alerts → J
  unfolding object array alert_json get_log
  api_json_alerts s =
      let (entries, count, active) = get_log s in
      object D (
        (codes "active_count", number_item active)
        ∷ (codes "entries", array D (map alert_json (take count entries)))
        ∷ [])

  unfoldable pub stats_json : NetStats → J
  unfolding object
  stats_json stats = object D (
      (codes "rx_bytes", number_item stats.rx_bytes)
      ∷ (codes "tx_bytes", number_item stats.tx_bytes)
      ∷ (codes "rx_packets", number_item stats.rx_packets)
      ∷ (codes "tx_packets", number_item stats.tx_packets)
      ∷ (codes "rx_errors", number_item stats.rx_errors)
      ∷ (codes "tx_errors", number_item stats.tx_errors)
      ∷ (codes "rx_dropped", number_item stats.rx_dropped)
      ∷ (codes "tx_dropped", number_item stats.tx_dropped)
      ∷ [])

  unfoldable pub connection_json : Connection → J
  unfolding object format_ip
  connection_json conn = object D (
      (codes "local_addr", b.create_string (format_ip conn.local_addr 32))
      ∷ (codes "local_port", number_item conn.local_port)
      ∷ (codes "remote_addr", b.create_string (format_ip conn.remote_addr 32))
      ∷ (codes "remote_port", number_item conn.remote_port)
      ∷ (
        codes "protocol",
        b.create_string (if conn.protocol == 6 then codes "TCP" else codes "UDP"),
      )
      ∷ (codes "state", number_item conn.state)
      ∷ [])

module _ {D : Type 0} {J : Type 0} ⦃f : Floating D⦄ ⦃b : Builder D J⦄ where
  unfoldable pub rates_json : NetRates D → J
  unfolding object
  rates_json rates = object D (
      (codes "rx_bps", b.create_number rates.rx_bytes_per_sec)
      ∷ (codes "tx_bps", b.create_number rates.tx_bytes_per_sec)
      ∷ (codes "rx_pps", b.create_number rates.rx_packets_per_sec)
      ∷ (codes "tx_pps", b.create_number rates.tx_packets_per_sec)
      ∷ [])

  unfoldable pub wifi_json : WifiInfo D → J
  unfolding object
  wifi_json wifi = object D (
      (codes "ssid", b.create_string wifi.ssid)
      ∷ (codes "signal_dbm", signed_item D wifi.signal_dbm)
      ∷ (codes "link_quality", signed_item D wifi.link_quality)
      ∷ (codes "noise_dbm", signed_item D wifi.noise_dbm)
      ∷ (codes "bitrate_mbps", b.create_number wifi.bitrate_mbps)
      ∷ [])

  unfoldable pub wifi_fields : IfaceState D → List (Bytes × J)
  unfolding wifi_json
  wifi_fields is =
      if set_flag is.info.is_wireless then (codes "wifi", wifi_json is.wifi) ∷ [] else []

  unfoldable pub json_iface : IfaceState D → J
  unfolding object stats_json rates_json wifi_fields format_ip format_mac
  json_iface is = object D (
      (codes "name", b.create_string is.info.name)
      ∷ (codes "up", b.create_bool (set_flag is.info.is_up))
      ∷ (codes "running", b.create_bool (set_flag is.info.is_running))
      ∷ (codes "wireless", b.create_bool (set_flag is.info.is_wireless))
      ∷ (codes "speed_mbps", number_item D is.info.speed_mbps)
      ∷ (codes "ip", b.create_string (format_ip is.info.ip_addr 32))
      ∷ (codes "netmask", b.create_string (format_ip is.info.netmask 32))
      ∷ (codes "mac", b.create_string (format_mac is.info.mac 32))
      ∷ (codes "stats", stats_json D is.stats)
      ∷ (codes "rates", rates_json is.rates)
      ∷ (codes "peak_rx_bps", b.create_number is.peak_rx_bps)
      ∷ (codes "peak_tx_bps", b.create_number is.peak_tx_bps)
      ∷ (codes "rx_bytes_today", number_item D is.rx_bytes_today)
      ∷ (codes "tx_bytes_today", number_item D is.tx_bytes_today)
      ∷ wifi_fields is)

  unfoldable pub api_json_interfaces : NetState D → J
  unfolding array json_iface
  api_json_interfaces state = array D (map json_iface state.ifaces)

  unfoldable pub api_json_connectivity : NetState D → J
  unfolding object
  api_json_connectivity state =
      let c = state.connectivity in
      object D (
        (codes "gateway_reachable", b.create_bool (set_flag c.gateway_reachable))
        ∷ (codes "gateway_latency_ms", b.create_number c.gateway_latency_ms)
        ∷ (codes "dns_reachable", b.create_bool (set_flag c.dns_reachable))
        ∷ (codes "dns_resolves", b.create_bool (set_flag c.dns_resolves))
        ∷ (codes "dns_latency_ms", b.create_number c.dns_latency_ms)
        ∷ [])

  unfoldable pub api_json_connections : NetState D → J
  unfolding array connection_json
  api_json_connections state = array D (map (connection_json D) state.connections)

  unfoldable pub infra_json : InfraDevice D → J
  unfolding object
  infra_json dev = object D (
      (codes "name", b.create_string dev.name)
      ∷ (codes "ip", b.create_string dev.ip_str)
      ∷ (codes "type", number_item D (infra_code dev.type))
      ∷ (codes "enabled", b.create_bool (set_flag dev.enabled))
      ∷ (codes "reachable", b.create_bool (set_flag dev.reachable))
      ∷ (codes "latency_ms", b.create_number dev.latency_ms)
      ∷ (codes "consecutive_fails", number_item D dev.consecutive_fails)
      ∷ [])

  unfoldable pub api_json_infra : NetState D → J
  unfolding array infra_json
  api_json_infra state = array D (map infra_json state.infra)

  unfoldable pub hop_json : Hop D → J
  unfolding object
  hop_json hop = object D (
      (codes "ip", b.create_string hop.ip_str)
      ∷ (codes "latency_ms", b.create_number hop.latency_ms)
      ∷ (codes "reachable", b.create_bool (set_flag hop.reachable))
      ∷ [])

  unfoldable pub api_json_wan : WanDiscovery D → J
  unfolding object array hop_json
  api_json_wan wan = object D (
      (codes "wan_reachable", b.create_bool (set_flag wan.wan_reachable))
      ∷ (codes "wan_latency_ms", b.create_number wan.wan_latency_ms)
      ∷ (codes "wan_jitter_ms", b.create_number wan.wan_jitter_ms)
      ∷ (codes "wan_packet_loss_pct", number_item D wan.wan_packet_loss_pct)
      ∷ (codes "num_hops", number_item D (length wan.hops))
      ∷ (codes "hops", array D (map hop_json wan.hops))
      ∷ [])

  unfoldable pub api_json_info : Bytes → NetState D → J
  unfolding object
  api_json_info hostname state = object D (
      (codes "hostname", b.create_string hostname)
      ∷ (codes "version", b.create_string (codes "3.0.0"))
      ∷ (codes "uptime_sec", number_item D state.uptime_sec)
      ∷ (codes "mem_total_kb", number_item D state.mem_total_kb)
      ∷ (codes "mem_free_kb", number_item D state.mem_free_kb)
      ∷ (codes "mem_available_kb", number_item D state.mem_available_kb)
      ∷ [])

  unfoldable pub api_json_status : Bytes → NetState D → Alerts → WanDiscovery D → J
  unfolding object api_json_info api_json_interfaces api_json_connectivity api_json_alerts
      api_json_infra api_json_wan
  api_json_status hostname state alerts wan = object D (
      (codes "info", api_json_info hostname state)
      ∷ (codes "interfaces", api_json_interfaces state)
      ∷ (codes "connectivity", api_json_connectivity state)
      ∷ (codes "alerts", api_json_alerts D alerts)
      ∷ (codes "infra", api_json_infra state)
      ∷ (codes "wan", api_json_wan wan)
      ∷ [])
