-- ===== src/Collector/Medium.antt =====
-- `medium_timer_cb`. A ping takes the address and the timeout in milliseconds.
use embedded_network_monitor.Prelude.{
  ℕ, zero, suc, ◌+◌, ◌%◌, Bool, false, not, Option, none, some, List, [], ◌∷◌, ◌==◌, if◌then◌else◌,
  Bytes, codes, length,
}
use embedded_network_monitor.Prelude.Floating.{Floating}
use embedded_network_monitor.NetState.{WifiInfo, Connection, IfaceState, InfraDevice}
use embedded_network_monitor.Alerts.State.{Alerts, check}
use embedded_network_monitor.Collector.State.{Collector, modify, setting}

-- what a probe returns, with its latency
pub record Probe (D : Type 0) : Type 0 where
  pub reachable : ℕ
  pub latency : D

abbrev pub default_ping_target : Bytes
default_ping_target = codes "10.0.0.1"

module _ {D : Type 0} where
  unfoldable pub enabled_at : List (InfraDevice D) → ℕ → Bool
  enabled_at [] i = false
  enabled_at (dev ∷ devs) zero = not (dev.enabled == 0)
  enabled_at (dev ∷ devs) (suc i) = enabled_at devs i

  -- the loop over the attempts: the device to ping, if any, and the index for the next tick
  unfoldable pub pick_infra : List (InfraDevice D) → ℕ → ℕ → Option ℕ × ℕ
  unfolding enabled_at
  pick_infra devs zero idx = (none, idx)
  pick_infra devs (suc attempts) idx =
      let next = (idx + 1) % length devs in
      let rest = pick_infra devs attempts next in
      if enabled_at devs (idx % length devs) then (some (idx % length devs), next) else rest

  unfoldable pub ping_infra : (Bytes → ℕ → Probe D) → InfraDevice D → InfraDevice D
  ping_infra ping dev =
      let p = ping dev.ip_str 1000 in
      record dev {
        reachable = p.reachable;
        latency_ms = p.latency;
        consecutive_fails = if p.reachable == 0 then dev.consecutive_fails + 1 else 0;
      }

  unfoldable pub ping_picked :
      (Bytes → ℕ → Probe D) → Option ℕ → List (InfraDevice D) → List (InfraDevice D)
  unfolding ping_infra modify
  ping_picked ping none devs = devs
  ping_picked ping (some i) devs = modify devs i (ping_infra ping)

  unfoldable pub infra_step : (Bytes → ℕ → Probe D) → Collector D → Collector D
  unfolding pick_infra ping_picked
  infra_step ping c =
      let (picked, next) = pick_infra c.net.infra (length c.net.infra) c.infra_idx in
      record c {
        net = record c.net { infra = ping_picked ping picked c.net.infra };
        infra_idx = next;
      }

  unfoldable pub read_wifi :
      (Bytes → WifiInfo D → WifiInfo D) → List (IfaceState D) → List (IfaceState D)
  read_wifi wifi [] = []
  read_wifi wifi (st ∷ sts) =
      (if st.info.is_wireless == 0 then st else record st { wifi = wifi st.info.name st.wifi })
      ∷ read_wifi wifi sts

  -- what precedes the alert check
  unfoldable pub collect :
      (Bytes → ℕ → Probe D)
      → List Connection
      → (Bytes → WifiInfo D → WifiInfo D)
      → Collector D
      → Collector D
  unfolding read_wifi infra_step setting
  collect ping connections wifi c =
      let p = ping (setting c.cfg (codes "ping_target") default_ping_target) 2000 in
      infra_step ping (record c {
        net = record c.net {
          connectivity = record c.net.connectivity {
            gateway_reachable = p.reachable;
            gateway_latency_ms = p.latency;
          };
          connections = connections;
          ifaces = read_wifi wifi c.net.ifaces;
        };
      })

module _ {D : Type 0} ⦃f : Floating D⦄ where
  unfoldable pub medium_timer :
      (Bytes → ℕ → Probe D)
      → List Connection
      → (Bytes → WifiInfo D → WifiInfo D)
      → ℕ
      → Collector D
      → Alerts
      → Collector D × Alerts
  unfolding collect check
  medium_timer ping connections wifi now c alerts =
      let t = collect ping connections wifi c in (t, check alerts now t.net)
