-- ===== src/Satellite/Data.antt =====
-- satellite/firmware/main/sat_data.c: the display's data model. `D` stands for `float`.
use Prim.Native.Nat.{bit_and}
use embedded_network_monitor.Prelude.{
  ℕ, ◌+◌, ◌-◌, ◌*◌, ◌%◌, ◌^◌, Bool, true, false, not, ◌&&◌, List, [], ◌∷◌, Bytes, ltb, ◌==◌,
  if◌then◌else◌, set, take, min,
}
use embedded_network_monitor.Prelude.Floating.{Floating}
use embedded_network_monitor.Satellite.Protocol.{
  max_interfaces, iface_name_len, IfaceData, Snapshot,
}

abbrev pub history_len : ℕ
history_len = 60

abbrev pub connection_timeout_ms : ℕ
connection_timeout_ms = 5000

-- `sat_iface_t`
pub record SatIface : Type 0 where
  pub name : Bytes
  pub up : Bool
  pub running : Bool
  pub wireless : Bool
  pub rx_rate : ℕ
  pub tx_rate : ℕ
  pub link_speed : ℕ
  pub signal_dbm : ℕ
  pub error_rate : ℕ

-- `sat_data_t`; `ifaces` is `ifaces[0 .. num_ifaces)`. `rx_errors`, which nothing changes, is left out.
pub record SatData (D : Type 0) : Type 0 where
  pub timestamp : ℕ
  pub uptime_sec : ℕ
  pub mem_used_pct : ℕ
  pub ifaces : List SatIface
  pub gw_up : Bool
  pub dns_up : Bool
  pub dns_resolves : Bool
  pub wan_up : Bool
  pub gw_latency_ms : D
  pub dns_latency_ms : D
  pub wan_latency_ms : D
  pub wan_jitter_ms : D
  pub wan_loss_pct : ℕ
  pub active_alerts : ℕ
  pub max_severity : ℕ
  pub total_rx_rate : ℕ
  pub total_tx_rate : ℕ
  pub max_link_bps : ℕ
  pub rx_history : List ℕ
  pub tx_history : List ℕ
  pub history_head : ℕ
  pub history_count : ℕ
  pub connected : Bool
  pub last_rx_time : ℕ
  pub last_seq : ℕ
  pub rx_frames : ℕ

abbrev pub has_flag : ℕ → ℕ → Bool
has_flag flags mask = not (bit_and flags mask == 0)

unfoldable pub sat_iface : IfaceData → SatIface
sat_iface src = record {
  name = take iface_name_len src.name;
  up = has_flag src.flags 1;
  running = has_flag src.flags 2;
  wireless = has_flag src.flags 4;
  rx_rate = src.rx_rate;
  tx_rate = src.tx_rate;
  link_speed = src.link_speed;
  signal_dbm = src.signal_dbm;
  error_rate = src.error_rate;
}

-- what the loop over the interfaces adds up, in 32 bits
pub record Totals : Type 0 where
  pub rx : ℕ
  pub tx : ℕ
  pub link : ℕ

abbrev pub link_bps : IfaceData → ℕ
link_bps src = src.link_speed * 1000000 % 2 ^ 32

unfoldable pub add_totals : Totals → IfaceData → Totals
add_totals t src = record {
  rx = (t.rx + src.rx_rate) % 2 ^ 32;
  tx = (t.tx + src.tx_rate) % 2 ^ 32;
  link = if ltb t.link (link_bps src) then link_bps src else t.link;
}

unfoldable pub totals_from : Totals → List IfaceData → Totals
unfolding add_totals
totals_from t [] = t
totals_from t (src ∷ srcs) = totals_from (add_totals t src) srcs

unfoldable pub sat_ifaces : List IfaceData → List SatIface
unfolding sat_iface
sat_ifaces [] = []
sat_ifaces (src ∷ srcs) = sat_iface src ∷ sat_ifaces srcs

abbrev pub no_totals : Totals
no_totals = record { rx = 0; tx = 0; link = 0 }

-- the interfaces that are read: at most 8
abbrev pub read_ifaces : Snapshot → List IfaceData
read_ifaces snap = take (min snap.num_ifaces max_interfaces) snap.ifaces

module _ {D : Type 0} ⦃f : Floating D⦄ where
  -- tenths of a millisecond in the protocol
  abbrev pub tenths : ℕ → D
  tenths n = f.narrow (f.div (f.of_ℕ n) (f.of_ℕ 10))

  unfoldable pub update_snapshot : SatData D → Snapshot → SatData D
  unfolding totals_from sat_ifaces
  update_snapshot s snap =
      let total = totals_from no_totals (read_ifaces snap) in
      record s {
        timestamp = snap.timestamp;
        uptime_sec = snap.uptime_sec;
        mem_used_pct = snap.mem_used_pct;
        gw_up = has_flag snap.conn_flags 1;
        dns_up = has_flag snap.conn_flags 2;
        dns_resolves = has_flag snap.conn_flags 4;
        wan_up = has_flag snap.conn_flags 8;
        gw_latency_ms = tenths snap.gw_latency;
        dns_latency_ms = tenths snap.dns_latency;
        wan_latency_ms = tenths snap.wan_latency;
        wan_jitter_ms = tenths snap.wan_jitter;
        wan_loss_pct = snap.wan_loss_pct;
        active_alerts = snap.active_alerts;
        max_severity = snap.max_severity;
        ifaces = sat_ifaces (read_ifaces snap);
        total_rx_rate = total.rx;
        total_tx_rate = total.tx;
        max_link_bps = if ltb 0 total.link then total.link else 100000000;
        rx_history = set s.rx_history s.history_head total.rx;
        tx_history = set s.tx_history s.history_head total.tx;
        history_head = (s.history_head + 1) % history_len;
        history_count =
            if ltb s.history_count history_len then s.history_count + 1 else s.history_count;
      }

module _ {D : Type 0} where
  unfoldable pub mark_alive : SatData D → ℕ → ℕ → SatData D
  mark_alive s now_ms seq = record s {
    connected = true;
    last_rx_time = now_ms;
    last_seq = seq;
    rx_frames = (s.rx_frames + 1) % 2 ^ 32;
  }

  -- the difference of two `uint32_t` wraps
  unfoldable pub check_connection : SatData D → ℕ → SatData D
  check_connection s now_ms =
      if s.connected && ltb connection_timeout_ms ((now_ms + 2 ^ 32 - s.last_rx_time) % 2 ^ 32)
      then record s { connected = false }
      else s
