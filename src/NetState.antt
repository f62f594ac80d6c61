-- ===== src/NetState.antt =====
-- src/net/net_collector.h, net_infra.h and net_discovery.h: the network state that the collector
-- fills and that the alerts, the history file and the interface read. `D` stands for `double`. A fixed
-- array with its count is the list of its live entries. A `char` array is its text.
use embedded_network_monitor.Prelude.{ℕ, List, Bytes}
use embedded_network_monitor.Prelude.Int.{ℤ}

abbrev pub max_interfaces : ℕ
max_interfaces = 8

abbrev pub iface_name_max : ℕ
iface_name_max = 16

-- `net_stats_t`, each counter a `uint64_t`
pub record NetStats : Type 0 where
  pub name : Bytes
  pub rx_bytes : ℕ
  pub tx_bytes : ℕ
  pub rx_packets : ℕ
  pub tx_packets : ℕ
  pub rx_errors : ℕ
  pub tx_errors : ℕ
  pub rx_dropped : ℕ
  pub tx_dropped : ℕ
  pub collisions : ℕ

-- `net_rates_t`
pub record NetRates (D : Type 0) : Type 0 where
  pub rx_bytes_per_sec : D
  pub tx_bytes_per_sec : D
  pub rx_packets_per_sec : D
  pub tx_packets_per_sec : D
  pub rx_errors_per_sec : D
  pub tx_errors_per_sec : D

-- `net_iface_info_t`; a flag that the code stores as an `int` of 0 or 1 is a number here too
pub record IfaceInfo : Type 0 where
  pub name : Bytes
  pub is_up : ℕ
  pub is_running : ℕ
  pub ip_addr : ℕ
  pub netmask : ℕ
  pub gateway : ℕ
  pub mac : List ℕ
  pub speed_mbps : ℕ
  pub is_wireless : ℕ

-- `net_connectivity_t`
pub record Connectivity (D : Type 0) : Type 0 where
  pub gateway_reachable : ℕ
  pub gateway_latency_ms : D
  pub dns_reachable : ℕ
  pub dns_resolves : ℕ
  pub dns_latency_ms : D

-- `net_wifi_info_t`
pub record WifiInfo (D : Type 0) : Type 0 where
  pub ssid : Bytes
  pub signal_dbm : ℤ
  pub link_quality : ℤ
  pub noise_dbm : ℤ
  pub bitrate_mbps : D

-- `net_arp_entry_t`
pub record ArpEntry : Type 0 where
  pub ip_addr : ℕ
  pub mac : List ℕ
  pub device : Bytes

-- `net_connection_t`
pub record Connection : Type 0 where
  pub local_addr : ℕ
  pub local_port : ℕ
  pub remote_addr : ℕ
  pub remote_port : ℕ
  pub state : ℕ
  pub protocol : ℕ

-- `net_history_sample_t`
pub record HistorySample (D : Type 0) : Type 0 where
  pub rx_bps : D
  pub tx_bps : D

-- `net_iface_state_t`
pub record IfaceState (D : Type 0) : Type 0 where
  pub info : IfaceInfo
  pub stats : NetStats
  pub rates : NetRates D
  pub wifi : WifiInfo D
  pub peak_rx_bps : D
  pub peak_tx_bps : D
  pub rx_bytes_today : ℕ
  pub tx_bytes_today : ℕ

-- `infra_device_type_t`
pub data InfraType : Type 0 where
  router switch ap other : InfraType

-- `infra_device_t`
pub record InfraDevice (D : Type 0) : Type 0 where
  pub name : Bytes
  pub ip_str : Bytes
  pub type : InfraType
  pub enabled : ℕ
  pub reachable : ℕ
  pub latency_ms : D
  pub consecutive_fails : ℕ

-- `discovery_hop_t`
pub record Hop (D : Type 0) : Type 0 where
  pub ip_addr : ℕ
  pub latency_ms : D
  pub reachable : ℕ
  pub ip_str : Bytes

-- `wan_discovery_t`; `hops[0 .. num_hops)` is the list
pub record WanDiscovery (D : Type 0) : Type 0 where
  pub hops : List (Hop D)
  pub wan_reachable : ℕ
  pub wan_latency_ms : D
  pub wan_jitter_ms : D
  pub wan_packet_loss_pct : ℕ

-- `net_state_t`. `ifaces` holds `ifaces[0 .. num_ifaces)`. The count stands beside it because the code
-- can set it to -1, with no interface then.
pub record NetState (D : Type 0) : Type 0 where
  pub num_ifaces : ℤ
  pub ifaces : List (IfaceState D)
  pub connectivity : Connectivity D
  pub arp_table : List ArpEntry
  pub connections : List Connection
  pub infra : List (InfraDevice D)
  pub uptime_sec : ℕ
  pub mem_total_kb : ℕ
  pub mem_free_kb : ℕ
  pub mem_available_kb : ℕ
