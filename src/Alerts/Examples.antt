-- ===== src/Alerts/Examples.antt =====
-- Runs and instances of the alert engine.
use embedded_network_monitor.Prelude.{
  ◌+◌, ◌%◌, ◌≤◌, ◌<◌, ◌≡◌, refl, ◌≢◌, ◌↔◌, Bool, true, false, List, [], ◌∷◌, ◌++◌, arith, codes,
  length, take, All,
}
use embedded_network_monitor.Prelude.Floating.{nat_floating}
use embedded_network_monitor.Prelude.Window.{last}
use embedded_network_monitor.Samples.{state_of}
use embedded_network_monitor.Alerts.State.{
  Alerts, max_alerts, hysteresis, hyst_step, row, init, check, check_ifaces, check_iface,
  check_down, check_errors, check_gateway, check_latency, check_dns, recount, count_active,
  push_alert, push_entry, entry, clear_all, get_log,
}
use embedded_network_monitor.Config.Entries.{get_value, value_at, find}
use embedded_network_monitor.Alerts.Ignore.{
  parse_ignore, is_ignored_iface, IsName, max_ignore_ifaces, parse_ignore_lem,
}
use embedded_network_monitor.Alerts.Log.{entries, IsLog}
use embedded_network_monitor.Alerts.Due.{due, due_gateway}
use embedded_network_monitor.Alerts.Hysteresis.{hyst_run, streak, hyst_run_alarm}
use embedded_network_monitor.Alerts.Check.{
  IsReady, entries-check, active_count-check, counters-check,
}
use embedded_network_monitor.Alerts.Runs.{check_all, unreachable, gateway_alert}
use embedded_network_monitor.Alerts.Active.{clear_all_lem}

abbrev fresh : Alerts
fresh = init []

fresh-IsReady : IsReady fresh
unfolding init
fresh-IsReady = record {
  is_log = record { log_size = refl; head_in = omega arith; count_in = omega arith };
  rows = refl;
}

-- The third check with `eth0` down and no gateway raises two alerts, and counts each twice.
third_check :
    (check_all fresh ((3, state_of 0) ∷ (2, state_of 0) ∷ (1, state_of 0) ∷ [])).active_count ≡ 4
unfolding check_all check check_ifaces check_iface check_down check_errors check_gateway
    check_latency check_dns recount count_active push_alert push_entry hyst_step init
    is_ignored_iface parse_ignore get_value value_at find entry
third_check = refl

entries-check_example :
    (entries (check fresh 5 (state_of 1))
      ≡ last max_alerts (entries fresh ++ due fresh 5 (state_of 1)))
    × IsReady (check fresh 5 (state_of 1))
entries-check_example = entries-check fresh 5 (state_of 1) fresh-IsReady (omega arith)

active_count-check_example :
    let t = check fresh 5 (state_of 1) in
    t.active_count ≡ length (due fresh 5 (state_of 1)) + count_active (take t.count t.log)
active_count-check_example = active_count-check fresh 5 (state_of 1) fresh-IsReady (omega arith)

counters-check_run :
    let t = check fresh 5 (state_of 0) in
    ((row t 0).gateway ≡ (hyst_step true (row fresh 0).gateway).0)
    × ((row t 0).dns ≡ (hyst_step false (row fresh 0).dns).0)
counters-check_run = counters-check fresh 5 (state_of 0) fresh-IsReady (omega arith)

gateway_alert_example :
    let n = streak (unreachable ((3, state_of 0) ∷ (2, state_of 0) ∷ (1, state_of 1) ∷ [])) in
    (due_gateway (row (check_all fresh ((2, state_of 0) ∷ (1, state_of 1) ∷ [])) 0) 3 (state_of 0)
      ≢ [])
    ↔ ((0 < n) × (n % hysteresis ≡ 0))
gateway_alert_example =
    gateway_alert [] ((2, state_of 0) ∷ (1, state_of 1) ∷ []) 3 (state_of 0) (omega arith)

clear_all_lem_run :
    let t = clear_all fresh in
    (t.active_count ≡ 0)
    × ((recount t).active_count ≡ 0)
    × (((get_log t).1 ≡ fresh.count) × (t.head ≡ fresh.head))
    × IsLog t
clear_all_lem_run = clear_all_lem fresh fresh-IsReady.is_log

parse_ignore_lem_run :
    (length (parse_ignore (codes "lo, usb0")) ≤ max_ignore_ifaces)
    × All IsName (parse_ignore (codes "lo, usb0"))
parse_ignore_lem_run = parse_ignore_lem (codes "lo, usb0")

abbrev observed : List Bool
observed = true ∷ true ∷ true ∷ false ∷ true ∷ []

hyst_run_alarm_run :
    ((hyst_run observed).1 ≡ true) ↔ ((0 < streak observed) × (streak observed % hysteresis ≡ 0))
hyst_run_alarm_run = hyst_run_alarm observed
