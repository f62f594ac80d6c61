-- ===== src/Api/Shown.antt =====
-- The state of the collector and of the alerts as the display gets it.
use embedded_network_monitor.Prelude.{
  ℕ, ◌+◌, ◌-◌, ◌*◌, ◌/◌, ◌%◌, ◌^◌, ◌<◌, min, ◌≡◌, ◌&&◌, some, List, [], ◌∷◌, map, ltb, ◌==◌,
  if◌then◌else◌, length, take, All,
}
use embedded_network_monitor.Prelude.Floating.{Floating}
use embedded_network_monitor.Prelude.Int.{ℤ, pos, negsuc}
use embedded_network_monitor.Alerts.State.{AlertEntry, Alerts}
use embedded_network_monitor.NetState.{IfaceState, NetState, WanDiscovery, max_interfaces}
use embedded_network_monitor.Api.Json.{set_flag, severity_code}
use embedded_network_monitor.Satellite.Protocol.{IfaceData, Snapshot}
use embedded_network_monitor.Satellite.Json.{name_field, or_if}

-- What the theorems need of floating point: a number below 2 ^ 53 survives the way to `double` and back to
-- an unsigned type that holds it.
abbrev pub IsExact : (D : Type 0) ⦃f : Floating D⦄ → Type 0
IsExact D ⦃f⦄ = (w n : ℕ) → n < 2 ^ 53 → n < 2 ^ w → f.to_ℕ w (f.of_ℕ n) ≡ n

-- a signed byte in two's complement
abbrev pub byte_of : ℤ → ℕ
byte_of (pos n) = n
byte_of (negsuc n) = 255 - n

-- in the range of `int8_t`
abbrev pub IsInt8 : ℤ → Type 0
IsInt8 (pos n) = n < 128
IsInt8 (negsuc n) = n < 128

-- the highest severity of the active entries, and `top`
abbrev pub highest : ℕ → List AlertEntry → ℕ
highest top [] = top
highest top (a ∷ entries) =
    highest
      (if set_flag a.active && ltb top (severity_code a.severity)
        then severity_code a.severity
        else top)
      entries

-- what of memory is in use, in percent
abbrev pub used_pct : ℕ → ℕ → ℕ
used_pct total avail = if total == 0 then 0 else (100 + 2 ^ 32 - avail * 100 % 2 ^ 32 / total) % 256

-- The speed of an interface and its signal fit the 16 bits and the signed byte of the frame.
pub record IsIfaceRange {D : Type 0} (is : IfaceState D) : Type 0 where
  pub speed_fits : is.info.speed_mbps < 2 ^ 16
  pub signal_fits : IsInt8 is.wifi.signal_dbm

-- The counts and the percentages fit the bytes of the frame, and the rest its type in the collector.
pub record IsRange {D : Type 0} (state : NetState D) (alerts : Alerts) (wan : WanDiscovery D)
    : Type 0 where
  pub uptime_fits : state.uptime_sec < 2 ^ 32
  pub total_fits : state.mem_total_kb < 2 ^ 32
  pub avail_fits : state.mem_available_kb < 2 ^ 32
  pub active_fits : alerts.active_count < 2 ^ 8
  pub loss_fits : wan.wan_packet_loss_pct < 2 ^ 8
  pub ifaces_fit : All IsIfaceRange state.ifaces

module _ {D : Type 0} ⦃f : Floating D⦄ where
  -- An interface of the collector as the display gets it. The rates are as the machine casts them to 32
  -- bits.
  abbrev pub shown_iface : IfaceState D → IfaceData
  shown_iface is = record {
    name = name_field (some is.info.name);
    flags =
        or_if (set_flag is.info.is_wireless) 4
          (or_if (set_flag is.info.is_running) 2 (or_if (set_flag is.info.is_up) 1 0));
    error_rate = 0;
    rx_rate = f.to_ℕ 32 is.rates.rx_bytes_per_sec % 2 ^ 32;
    tx_rate = f.to_ℕ 32 is.rates.tx_bytes_per_sec % 2 ^ 32;
    link_speed = is.info.speed_mbps;
    signal_dbm = if set_flag is.info.is_wireless then byte_of is.wifi.signal_dbm else 0;
    reserved = 0;
  }

  -- in tenths of a millisecond, as the machine casts them to 16 bits
  abbrev pub tenths_of : D → ℕ
  tenths_of d = f.to_ℕ 16 (f.mul d (f.of_ℕ 10)) % 2 ^ 16

  -- the state of the collector and of the alerts as the display gets it
  abbrev pub shown_state : NetState D → Alerts → WanDiscovery D → ℕ → Snapshot
  shown_state state alerts wan now =
      let c = state.connectivity in
      record {
        timestamp = now % 2 ^ 32;
        uptime_sec = state.uptime_sec;
        mem_used_pct = used_pct state.mem_total_kb state.mem_available_kb;
        num_ifaces = min (length state.ifaces) max_interfaces;
        conn_flags = or_if (set_flag wan.wan_reachable) 8 (
            or_if (set_flag c.dns_resolves) 4
              (or_if (set_flag c.dns_reachable) 2 (or_if (set_flag c.gateway_reachable) 1 0)));
        active_alerts = alerts.active_count;
        max_severity = highest 0 (take alerts.count alerts.log);
        wan_loss_pct = wan.wan_packet_loss_pct;
        gw_latency = tenths_of c.gateway_latency_ms;
        dns_latency = tenths_of c.dns_latency_ms;
        wan_latency = tenths_of wan.wan_latency_ms;
        wan_jitter = tenths_of wan.wan_jitter_ms;
        ifaces = map shown_iface (take max_interfaces state.ifaces);
      }
