-- ===== src/Alerts/Due.antt =====
-- alerts_check against what is due: a list computed from the counters before the check and from the
-- network state alone.
use embedded_network_monitor.Prelude.{
  ℕ, suc, inl, inr, List, [], ◌∷◌, ◌++◌, ◌==◌, if◌then◌else◌, Bool-cases, Bytes, codes,
}
use embedded_network_monitor.Prelude.Floating.{Floating}
use embedded_network_monitor.NetState.{IfaceState, NetState}
use embedded_network_monitor.Alerts.Ignore.{is_ignored_iface}
use embedded_network_monitor.Alerts.State.{
  Alerts, AlertEntry, iface_down, packet_errors, gateway_unreachable, dns_failure, high_latency,
  warning, critical, Counters, entry, push_alert, hyst_step, row, is_down, has_errors, check_down,
  check_errors, check_gateway, check_latency, check_dns,
}
use embedded_network_monitor.Alerts.Log.{IsLog, Raises, Raises-none, Raises-push, if_due, Raises-if}

module _ {D : Type 0} ⦃f : Floating D⦄ where
  -- Due alerts, by the counters before the check.
  unfoldable pub due_down : Counters → ℕ → IfaceState D → List AlertEntry
  due_down r now iface =
      if_due (hyst_step (is_down iface) r.down).1
        (entry now iface_down critical iface.info.name (codes "Interface is down"))

  unfoldable pub due_errors : Counters → ℕ → IfaceState D → List AlertEntry
  due_errors r now iface =
      if_due (hyst_step (has_errors iface) r.errors).1
        (entry now packet_errors warning iface.info.name (codes "High packet error rate"))

  unfoldable pub due_iface : List Bytes → Counters → ℕ → IfaceState D → List AlertEntry
  due_iface ignore r now iface =
      if is_ignored_iface ignore iface.info.name
      then []
      else due_down r now iface ++ due_errors r now iface

  unfoldable pub due_ifaces : Alerts → ℕ → ℕ → List (IfaceState D) → List AlertEntry
  due_ifaces s now i [] = []
  due_ifaces s now i (iface ∷ ifaces) =
      due_iface s.ignore (row s i) now iface ++ due_ifaces s now (suc i) ifaces

  unfoldable pub due_gateway : Counters → ℕ → NetState D → List AlertEntry
  due_gateway r now state =
      if_due (hyst_step (state.connectivity.gateway_reachable == 0) r.gateway).1
        (entry now gateway_unreachable critical [] (codes "Gateway unreachable"))

  -- high latency has no counter: it is due at every check
  unfoldable pub due_latency : ℕ → NetState D → List AlertEntry
  due_latency now state =
      if state.connectivity.gateway_reachable == 0
      then []
      else if f.gtb state.connectivity.gateway_latency_ms (f.of_ℕ 500)
      then entry now high_latency critical [] (codes "Very high gateway latency") ∷ []
      else if_due (f.gtb state.connectivity.gateway_latency_ms (f.of_ℕ 100))
          (entry now high_latency warning [] (codes "High gateway latency"))

  unfoldable pub due_dns : Counters → ℕ → NetState D → List AlertEntry
  due_dns r now state =
      if_due (hyst_step (state.connectivity.dns_reachable == 0) r.dns).1
        (entry now dns_failure warning [] (codes "DNS resolution failed"))

  unfoldable pub due : Alerts → ℕ → NetState D → List AlertEntry
  due s now state =
      due_ifaces s now 0 state.ifaces
      ++ (due_gateway (row s 0) now state ++ (due_latency now state ++ due_dns (row s 0) now state))

  pub check_down-Raises :
      (s : Alerts) (now i : ℕ) (iface : IfaceState D)
      → IsLog s
      → Raises s (due_down (row s i) now iface) (check_down s now i iface)
  unfolding check_down due_down push_alert
  check_down-Raises s now i iface v = Raises-if s _ (hyst_step (is_down iface) (row s i).down).1 _ v

  pub check_errors-Raises :
      (s : Alerts) (now i : ℕ) (iface : IfaceState D)
      → IsLog s
      → Raises s (due_errors (row s i) now iface) (check_errors s now i iface)
  unfolding check_errors due_errors push_alert
  check_errors-Raises s now i iface v =
      Raises-if s _ (hyst_step (has_errors iface) (row s i).errors).1 _ v

  pub check_gateway-Raises :
      (s : Alerts) (now : ℕ) (state : NetState D)
      → IsLog s
      → Raises s (due_gateway (row s 0) now state) (check_gateway s now state)
  unfolding check_gateway due_gateway push_alert
  check_gateway-Raises s now state v =
      Raises-if s _ (hyst_step (state.connectivity.gateway_reachable == 0) (row s 0).gateway).1 _ v

  pub check_dns-Raises :
      (s : Alerts) (now : ℕ) (state : NetState D)
      → IsLog s
      → Raises s (due_dns (row s 0) now state) (check_dns s now state)
  unfolding check_dns due_dns push_alert
  check_dns-Raises s now state v =
      Raises-if s _ (hyst_step (state.connectivity.dns_reachable == 0) (row s 0).dns).1 _ v

  pub check_latency-Raises :
      (s : Alerts) (now : ℕ) (state : NetState D)
      → IsLog s
      → Raises s (due_latency now state) (check_latency s now state)
  unfolding check_latency due_latency push_alert
  check_latency-Raises s now state v =
      elim (Bool-cases (state.connectivity.gateway_reachable == 0)) [
        | inl down ↦ rw down (Raises-none s s.hyst v)
        | inr up ↦ elim (Bool-cases (f.gtb state.connectivity.gateway_latency_ms (f.of_ℕ 500))) [
          | inl crit ↦ rw (up, crit) (Raises-push s _ v)
          | inr calm ↦
              rw (up, calm)
                (Raises-if s s.hyst (f.gtb state.connectivity.gateway_latency_ms (f.of_ℕ 100)) _ v)
        ]
      ]
