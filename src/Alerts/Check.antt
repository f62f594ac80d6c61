-- ===== src/Alerts/Check.antt =====
-- alerts_check as a whole: what it raises, and what it does to the counters.
use embedded_network_monitor.Prelude.{
  ℕ, ◌+◌, ◌≤◌, ◌≡◌, refl, ap, ◌∙◌, ◌++◌, arith, ◌==◌, length, get_or, take,
}
use embedded_network_monitor.Prelude.Floating.{Floating}
use embedded_network_monitor.Prelude.Window.{last}
use embedded_network_monitor.NetState.{max_interfaces, NetState}
use embedded_network_monitor.Alerts.State.{
  Alerts, Counters, no_counts, max_alerts, hyst_step, row, check_ifaces, check_gateway,
  check_latency, check_dns, recount, count_active, check,
}
use embedded_network_monitor.Alerts.Log.{entries, IsLog, Raises, Raises-append}
use embedded_network_monitor.Alerts.Due.{
  due_ifaces, due, check_gateway-Raises, check_latency-Raises, check_dns-Raises,
}
use embedded_network_monitor.Alerts.Frames.{
  Kept, check_ifaces-Raises, due_ifaces-congr, due_gateway-congr, due_dns-congr, row-check_gateway,
  hyst-check_latency, row-check_dns, length-check_gateway, length-check_dns,
}

-- The engine as it is between two checks.
pub record IsReady (s : Alerts) : Type 0 where
  pub is_log : IsLog s
  pub rows : length s.hyst ≡ max_interfaces

module _ {D : Type 0} ⦃f : Floating D⦄ (s : Alerts) (now : ℕ) (state : NetState D)
    (ready : IsReady s) (fits : length state.ifaces ≤ max_interfaces) where
  -- the state before each part of the check
  abbrev s₀ : Alerts
  s₀ = record s { active_count = 0 }

  abbrev s₁ : Alerts
  s₁ = check_ifaces s₀ now 0 state.ifaces

  abbrev s₂ : Alerts
  s₂ = check_gateway s₁ now state

  abbrev s₃ : Alerts
  s₃ = check_latency s₂ now state

  abbrev s₄ : Alerts
  s₄ = check_dns s₃ now state

  after_ifaces : Raises s₀ (due_ifaces s now 0 state.ifaces) s₁ × Kept s₀ s₁
  after_ifaces =
      let (p, k) = check_ifaces-Raises state.ifaces s₀ now 0 start (omega (arith, ready.rows)) in
      (rw (due_ifaces-congr state.ifaces s s₀ now 0 refl (λ j le. refl)) at p, k)
    where
      start : IsLog s₀
      start = record {
        log_size = ready.is_log.log_size;
        head_in = ready.is_log.head_in;
        count_in = ready.is_log.count_in;
      }

  row-s₂ : row s₂ 0 ≡ record (row s₁ 0) {
    gateway = (hyst_step (state.connectivity.gateway_reachable == 0) (row s₁ 0).gateway).0;
  }
  row-s₂ = row-check_gateway s₁ now state (omega (arith, ready.rows, after_ifaces.1.same_size))

  row-s₃ : row s₃ 0 ≡ row s₂ 0
  row-s₃ = ap (λ h. get_or h 0 no_counts) (hyst-check_latency s₂ now state)

  dns-s₃ : (row s₃ 0).dns ≡ (row s 0).dns
  dns-s₃ = ap Counters.dns (row-s₃ ∙ row-s₂) ∙ after_ifaces.1.dns

  rows-s₃ : length s₃.hyst ≡ max_interfaces
  rows-s₃ =
      ap (length {A = Counters}) (hyst-check_latency s₂ now state)
      ∙ length-check_gateway s₁ now state
      ∙ after_ifaces.1.same_size
      ∙ ready.rows

  all_raised : Raises s₀ (due s now state) s₄
  unfolding due
  all_raised =
      let p₁ = after_ifaces.0 in
      let p₂ =
        rw (due_gateway-congr (row s 0) (row s₁ 0) now state after_ifaces.1.gateway) at
          (check_gateway-Raises s₁ now state p₁.valid) in
      let p₃ = check_latency-Raises s₂ now state p₂.valid in
      let p₄ =
        rw (due_dns-congr (row s 0) (row s₃ 0) now state dns-s₃) at
          (check_dns-Raises s₃ now state p₃.valid) in
      Raises-append s₀ s₁ s₄ _ _ p₁
        (Raises-append s₁ s₂ s₄ _ _ p₂ (Raises-append s₂ s₃ s₄ _ _ p₃ p₄))

  -- A check raises exactly the alerts that are due, interfaces first and in their order: the log then
  -- holds the last 64 of what it held and of these. The engine is ready for the next check.
  pub entries-check :
      (entries (check s now state) ≡ last max_alerts (entries s ++ due s now state))
      × IsReady (check s now state)
  unfolding check recount
  entries-check = (
    all_raised.logged,
    record { is_log = log_of_valid; rows = length-check_dns s₃ now state ∙ rows-s₃ },
  )
    where
      log_of_valid : IsLog (recount s₄)
      log_of_valid = record {
        log_size = all_raised.valid.log_size;
        head_in = all_raised.valid.head_in;
        count_in = all_raised.valid.count_in;
      }

  -- The number of active alerts after a check is the number of log entries that are active, plus the
  -- number of alerts that this check raised: those are counted twice.
  pub active_count-check :
      let t = check s now state in
      t.active_count ≡ length (due s now state) + count_active (take t.count t.log)
  unfolding check recount
  active_count-check = omega (arith, all_raised.counted)

  -- A check moves the gateway and DNS counters by one step of the hysteresis.
  pub counters-check :
      let t = check s now state in
      ((row t 0).gateway
        ≡ (hyst_step (state.connectivity.gateway_reachable == 0) (row s 0).gateway).0)
      × ((row t 0).dns ≡ (hyst_step (state.connectivity.dns_reachable == 0) (row s 0).dns).0)
  unfolding check recount
  counters-check =
      let last_row = row-check_dns s₃ now state (omega (arith, rows-s₃)) in
      (
        ap Counters.gateway last_row
            ∙ ap Counters.gateway (row-s₃ ∙ row-s₂)
            ∙ ap (λ c. (hyst_step (state.connectivity.gateway_reachable == 0) c).0)
                after_ifaces.1.gateway,
        ap Counters.dns last_row
            ∙ ap (λ c. (hyst_step (state.connectivity.dns_reachable == 0) c).0) dns-s₃,
      )
