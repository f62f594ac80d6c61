-- ===== src/Alerts/Runs.antt =====
-- Runs of checks from start-up: when the gateway alert is due.
use embedded_network_monitor.Prelude.{
  ℕ, ◌%◌, ◌≤◌, ◌<◌, ◌≡◌, refl, ap, ◌∙◌, ◌≢◌, ◌↔◌, Bool, true, false, List, [], ◌∷◌, arith, ◌==◌,
  length,
}
use embedded_network_monitor.Prelude.Floating.{Floating}
use embedded_network_monitor.NetState.{max_interfaces, NetState}
use embedded_network_monitor.Config.Entries.{Config}
use embedded_network_monitor.Alerts.State.{
  Alerts, AlertEntry, hysteresis, hyst_step, row, init, check,
}
use embedded_network_monitor.Alerts.Log.{if_due}
use embedded_network_monitor.Alerts.Due.{due_gateway}
use embedded_network_monitor.Alerts.Hysteresis.{hyst_run, streak, hyst_run_alarm}
use embedded_network_monitor.Alerts.Check.{IsReady, entries-check, counters-check}

if_due-ne-nil : (due : Bool) (e : AlertEntry) → (if_due due e ≢ []) ↔ (due ≡ true)
if_due-ne-nil true e = ((λ n. refl), (λ t p. cc))
if_due-ne-nil false e = ((λ n. absurd (n refl)), (λ t p. cc))

-- The checks of a run, latest first, each with the second at which it is made.
unfoldable pub check_all : {D : Type 0} ⦃f : Floating D⦄ → Alerts → List (ℕ × NetState D) → Alerts
check_all s [] = s
check_all s ((now, state) ∷ earlier) = check (check_all s earlier) now state

abbrev pub AllFit : {D : Type 0} → List (ℕ × NetState D) → Type 0
AllFit [] = Unit
AllFit ((now, state) ∷ earlier) = (length state.ifaces ≤ max_interfaces) × AllFit earlier

-- the observations of the gateway
abbrev pub unreachable : {D : Type 0} → List (ℕ × NetState D) → List Bool
unreachable [] = []
unreachable ((now, state) ∷ earlier) =
    (state.connectivity.gateway_reachable == 0) ∷ unreachable earlier

init-IsReady : (cfg : Config) → IsReady (init cfg)
unfolding init
init-IsReady cfg = record {
  is_log = record { log_size = refl; head_in = omega arith; count_in = omega arith };
  rows = refl;
}

module _ {D : Type 0} ⦃f : Floating D⦄ (cfg : Config) where
  check_all-IsReady :
      (run : List (ℕ × NetState D)) → AllFit run → IsReady (check_all (init cfg) run)
  unfolding check_all
  check_all-IsReady [] h = init-IsReady cfg
  check_all-IsReady ((now, state) ∷ earlier) h =
      (entries-check (check_all (init cfg) earlier) now state (check_all-IsReady earlier h.1) h.0).1

  gateway-check_all :
      (run : List (ℕ × NetState D))
      → AllFit run
      → (row (check_all (init cfg) run) 0).gateway ≡ (hyst_run (unreachable run)).0
  unfolding check_all hyst_run
  gateway-check_all [] h = unfold init in refl
  gateway-check_all ((now, state) ∷ earlier) h =
      (counters-check (check_all (init cfg) earlier) now state (check_all-IsReady earlier h.1)
        h.0).0
      ∙ ap (λ c. (hyst_step (state.connectivity.gateway_reachable == 0) c).0)
          (gateway-check_all earlier h.1)

  -- From start-up, whatever else the checks saw, a check finds the gateway alert due exactly when the
  -- gateway is unreachable for the 3rd, 6th, 9th, … check in a row.
  pub gateway_alert :
      (run : List (ℕ × NetState D)) (now : ℕ) (state : NetState D)
      → AllFit ((now, state) ∷ run)
      → let n = streak (unreachable ((now, state) ∷ run)) in
        (due_gateway (row (check_all (init cfg) run) 0) now state ≢ [])
        ↔ ((0 < n) × (n % hysteresis ≡ 0))
  gateway_alert run now state h =
      let alarm = hyst_run_alarm (unreachable ((now, state) ∷ run)) in
      (λ due. alarm.0 (gateway_due.0 due), λ late. gateway_due.1 (alarm.1 late))
    where
      same : (row (check_all (init cfg) run) 0).gateway ≡ (hyst_run (unreachable run)).0
      same = gateway-check_all run h.1

      gateway_due :
          (due_gateway (row (check_all (init cfg) run) 0) now state ≢ [])
          ↔ ((hyst_run (unreachable ((now, state) ∷ run))).1 ≡ true)
      gateway_due =
          unfold due_gateway hyst_run in
          rw (ap (λ c. (hyst_step (state.connectivity.gateway_reachable == 0) c).1) same)
            (if_due-ne-nil _ _)
