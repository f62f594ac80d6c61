-- ===== src/Beacon/Examples.antt =====
-- Runs of api/api_beacon.c on concrete inputs.
use embedded_network_monitor.Prelude.{
  ℕ, ◌+◌, ◌<◌, ◌≡◌, refl, true, false, none, some, List, [], ◌∷◌, arith, codes,
}
use embedded_network_monitor.Beacon.{
  interval_ms, not_started, api_beacon_init, api_beacon_shutdown, first_address, ip_of,
}
use embedded_network_monitor.Beacon.Spaced.{Tick, ticks, IsSpaced, IsLatest, end_of, ticks_lem}

abbrev tick_at : ℕ → Tick
tick_at now = record { now = now; hostname = codes "pi"; addresses = none }

abbrev times : List Tick
times = tick_at 6000 ∷ tick_at 7000 ∷ tick_at 11000 ∷ []

ticks_lem_example :
    let b = ticks times (api_beacon_init true none not_started).1 in
    IsSpaced b.sends
    × IsLatest b.last_beacon_ms b.sends
    × (end_of 0 times < b.last_beacon_ms + interval_ms)
ticks_lem_example =
    ticks_lem none times
      (omega arith, omega arith, (omega arith, omega arith, (omega arith, omega arith, tt)))

ip_of_run :
    (ip_of none ≡ codes "0.0.0.0")
    × (ip_of (
          some (
            record { is_inet = true; is_loopback = true; is_up = true; text = codes "127.0.0.1" }
            ∷ record { is_inet = true; is_loopback = false; is_up = true; text = codes "10.0.0.5" }
            ∷ []))
        ≡ codes "10.0.0.5")
unfolding ip_of first_address
ip_of_run = (refl, refl)

api_beacon_shutdown_run :
    (api_beacon_shutdown (api_beacon_init true none not_started).1).is_open ≡ false
unfolding api_beacon_shutdown api_beacon_init
api_beacon_shutdown_run = refl
