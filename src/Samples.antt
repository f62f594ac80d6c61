-- ===== src/Samples.antt =====
-- Network states for runs and instances, with `double` read as ℕ.
use embedded_network_monitor.Prelude.{ℕ, [], ◌∷◌, Bytes, codes}
use embedded_network_monitor.Prelude.Int.{pos}
use embedded_network_monitor.NetState.{NetStats, IfaceInfo, IfaceState, NetState}

abbrev pub info_of : Bytes → ℕ → IfaceInfo
info_of name up = record {
  name = name;
  is_up = up;
  is_running = up;
  ip_addr = 0;
  netmask = 0;
  gateway = 0;
  mac = [];
  speed_mbps = 0;
  is_wireless = 0;
}

abbrev pub stats_of : Bytes → ℕ → ℕ → NetStats
stats_of name rx tx = record {
  name = name;
  rx_bytes = rx;
  tx_bytes = tx;
  rx_packets = 0;
  tx_packets = 0;
  rx_errors = 0;
  tx_errors = 0;
  rx_dropped = 0;
  tx_dropped = 0;
  collisions = 0;
}

abbrev pub iface_of : Bytes → ℕ → IfaceState ℕ
iface_of name up = record {
  info = info_of name up;
  stats = stats_of name 0 0;
  rates = record {
    rx_bytes_per_sec = 0;
    tx_bytes_per_sec = 0;
    rx_packets_per_sec = 0;
    tx_packets_per_sec = 0;
    rx_errors_per_sec = 0;
    tx_errors_per_sec = 0;
  };
  wifi = record {
    ssid = [];
    signal_dbm = pos 0;
    link_quality = pos 0;
    noise_dbm = pos 0;
    bitrate_mbps = 0;
  };
  peak_rx_bps = 0;
  peak_tx_bps = 0;
  rx_bytes_today = 0;
  tx_bytes_today = 0;
}

-- one interface, down, and a gateway that does or does not answer
abbrev pub state_of : ℕ → NetState ℕ
state_of reachable = record {
  num_ifaces = pos 1;
  ifaces = iface_of (codes "eth0") 0 ∷ [];
  connectivity = record {
    gateway_reachable = reachable;
    gateway_latency_ms = 700;
    dns_reachable = 1;
    dns_resolves = 1;
    dns_latency_ms = 0;
  };
  arp_table = [];
  connections = [];
  infra = [];
  uptime_sec = 0;
  mem_total_kb = 0;
  mem_free_kb = 0;
  mem_available_kb = 0;
}
