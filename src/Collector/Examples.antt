-- ===== src/Collector/Examples.antt =====
-- Instances of the collector's theorems.
use embedded_network_monitor.Prelude.{
  ℕ, ◌+◌, ◌%◌, ◌≤◌, ◌<◌, ◌≡◌, refl, ◌⊎◌, true, ◌&&◌, none, some, List, [], ◌∷◌, ◌++◌, arith, ltb,
  if◌then◌else◌, Bytes, codes, str_eq, get_or, replicate, length-replicate, map, length, All,
  All-replicate, Option,
}
use embedded_network_monitor.Prelude.Floating.{nat_floating}
use embedded_network_monitor.Prelude.Window.{last}
use embedded_network_monitor.NetState.{
  IfaceInfo, WanDiscovery, InfraDevice, router, NetStats, ArpEntry,
}
use embedded_network_monitor.Samples.{state_of, info_of, stats_of}
use embedded_network_monitor.Collector.State.{
  Collector, Track, Clock, short_len, long_len, no_track, find_iface, find_stats, modify,
}
use embedded_network_monitor.Collector.Fast.{elapsed, fast_timer, minute_step}
use embedded_network_monitor.Collector.Medium.{Probe, enabled_at, ping_infra, infra_step}
use embedded_network_monitor.Collector.Slow.{slow_timer}
use embedded_network_monitor.Collector.Start.{init}
use embedded_network_monitor.Collector.Proc.{
  parse_proc_net_dev, parse_lines, parse_line, parse_parts, parse_columns, fgets_from, split_colon,
  scan_numbers, scan_signed, scan_digits, skip_digits, stats_from, keep_stats_of,
}
use embedded_network_monitor.Collector.Names.{IsNamed, parse_proc_net_dev-All}
use embedded_network_monitor.Config.Text.{
  skip_space, digits_value, starts_digit, is_digit, is_space,
}
use embedded_network_monitor.Alerts.Ignore.{skip_blanks}
use embedded_network_monitor.Collector.History.{IsTrack, held}
use embedded_network_monitor.Collector.Rates.{sample_found, samples, prevs, held-fast_timer}
use embedded_network_monitor.Collector.Merge.{
  IsCounted, Keeps, slow_timer-IsCounted, init-IsCounted,
}
use embedded_network_monitor.Collector.Infra.{NoneEnabled, infra_step_lem}
use embedded_network_monitor.Collector.Minute.{minute_step_lem}
use embedded_network_monitor.Collector.Reach.{IsStatic, Reach-init-IsOk, next, here, fast_step}
use embedded_network_monitor.Collector.Failed.{slow_timer-init}
use embedded_network_monitor.Collector.Kept.{IsOk}

abbrev track : ℕ → Track ℕ
track cap = record { buf = replicate cap (record { rx_bps = 0; tx_bps = 0 }); head = 0; count = 0 }

abbrev wan : WanDiscovery ℕ
wan = record {
  hops = [];
  wan_reachable = 0;
  wan_latency_ms = 0;
  wan_jitter_ms = 0;
  wan_packet_loss_pct = 0;
}

abbrev device : ℕ → InfraDevice ℕ
device on = record {
  name = codes "core";
  ip_str = codes "10.0.0.2";
  type = router;
  enabled = on;
  reachable = 0;
  latency_ms = 0;
  consecutive_fails = 4;
}

abbrev eth0 : Bytes
eth0 = codes "eth0"

-- `eth0` with statistics of one second before, at the end of a minute
abbrev running : Collector ℕ
running = record {
  net = record (state_of 1) { infra = device 0 ∷ device 1 ∷ [] };
  cfg = none;
  short = replicate 8 (track short_len);
  long = replicate 8 (track long_len);
  prev_stats = stats_of eth0 1000 500 ∷ [];
  prev_valid = true;
  prev_time = record { sec = 10; nsec = 0 };
  minute_rx = replicate 8 6000;
  minute_tx = replicate 8 600;
  minute_count = 59;
  infra_idx = 0;
  wan = wan;
  wan_tick = 1;
  promiscuous = true;
  promiscuous_on = [];
}

track-IsTrack : (cap : ℕ) → 0 < cap → IsTrack cap (track cap)
track-IsTrack cap h = record { size = length-replicate cap _; head_in = h; count_in = omega arith }

abbrev later : Clock
later = record { sec = 11; nsec = 0 }

abbrev net_dev : Bytes
net_dev =
    codes
      "Inter-| Receive\n face |bytes\n    lo: 1 1 0 0 0 0 0 0 1 1 0 0 0 0 0 0\n  eth0: 1700 7 0 0 0 0 0 0 600 3 0 0 0 0 0 0\n"

held-fast_timer_example :
    let curs = parse_proc_net_dev (some net_dev) 8 in
    let dt : ℕ = elapsed later running.prev_time in
    let row = get_or (fast_timer (some net_dev) later (some 99) none running).short 0 no_track in
    IsTrack short_len row
    × (held short_len row
        ≡ last short_len (
            held short_len (track short_len)
            ++ (if running.prev_valid && ltb 0 dt
                then samples dt 0 (find_iface running.net.ifaces) (prevs running) curs
                else [])))
held-fast_timer_example =
    held-fast_timer (some net_dev) later (some 99) none 0 running (omega arith)
      (track-IsTrack short_len (omega arith))

-- That tick adds a sample of 700 and 100 bytes per second.
held-fast_timer_run :
    samples {D = ℕ} 1 0
      (find_iface running.net.ifaces)
      (prevs running)
      (stats_of eth0 1700 600 ∷ [])
    ≡ record { rx_bps = 700; tx_bps = 100 } ∷ []
unfolding samples sample_found find_iface find_stats str_eq
held-fast_timer_run = refl

abbrev infos : List IfaceInfo
infos = info_of (codes "wlan0") 1 ∷ info_of eth0 1 ∷ []

abbrev dns : Bytes → Bytes → ℕ → Probe ℕ
dns server host timeout = record { reachable = 1; latency = 12 }

running-IsCounted : IsCounted running
running-IsCounted = record { counted = refl; fits = omega arith }

slow_timer-IsCounted_run :
    (t : Collector ℕ) × (slow_timer (some infos) dns [] (λ target w. w) (λ target w. w) running
      ≡ some t)
    × IsCounted t
    × Keeps running t
slow_timer-IsCounted_run =
    slow_timer-IsCounted (some infos) dns [] (λ target w. w) (λ target w. w) running
      running-IsCounted

init-IsCounted_run : IsCounted (init none (some infos) (some net_dev) later running)
init-IsCounted_run = init-IsCounted none infos (some net_dev) later running (omega arith)

slow_timer-init_example :
    slow_timer
      (some infos)
      dns
      []
      (λ target w. w)
      (λ target w. w)
      (fast_timer
        (some net_dev)
        later
        none
        none
        (fast_timer (some net_dev) later none none (init none none none later running)))
    ≡ none
slow_timer-init_example =
    slow_timer-init none none later (info_of (codes "wlan0") 1) (info_of eth0 1 ∷ []) dns []
      (λ target w. w) (λ target w. w) running _
      (next (next here (fast_step (some net_dev) later none none))
        (fast_step (some net_dev) later none none))

abbrev ping : Bytes → ℕ → Probe ℕ
ping address timeout = record { reachable = 1; latency = 3 }

infra_step_lem_example :
    let devs = running.net.infra in
    let t = infra_step ping running in
    ((t.net.infra ≡ devs) × NoneEnabled devs 2 0)
    ⊎ ((k : ℕ) × (k < 2)
        × (enabled_at devs ((0 + k) % 2) ≡ true)
        × NoneEnabled devs k 0
        × (t.net.infra ≡ modify devs ((0 + k) % 2) (ping_infra ping))
        × (t.infra_idx ≡ (0 + k + 1) % 2))
infra_step_lem_example = infra_step_lem ping running

minute_step_lem_example :
    ((59 < 59) × (minute_step running ≡ record running { minute_count = 60 }))
    ⊎ ((59 ≤ 59)
        × ((minute_step running).minute_count ≡ 0)
        × (held long_len (get_or (minute_step running).long 0 no_track)
            ≡ last long_len
                (held long_len (track long_len) ++ record { rx_bps = 100; tx_bps = 10 } ∷ []))
        × (get_or (minute_step running).minute_rx 0 0 ≡ 0)
        × (get_or (minute_step running).minute_tx 0 0 ≡ 0))
minute_step_lem_example =
    minute_step_lem running 0 (omega arith) (omega arith) (omega arith) (omega arith)
      (track-IsTrack long_len (omega arith))

abbrev counters_of : NetStats → Bytes × ℕ × ℕ × ℕ × ℕ
counters_of s = (s.name, s.rx_bytes, s.rx_packets, s.tx_bytes, s.tx_packets)

net_dev_run : map counters_of (parse_proc_net_dev (some net_dev) 8) ≡ (eth0, 1700, 7, 600, 3) ∷ []
unfolding parse_proc_net_dev parse_lines parse_line parse_parts parse_columns fgets_from split_colon
    scan_numbers scan_signed scan_digits skip_digits stats_from keep_stats_of skip_space
    digits_value starts_digit is_digit is_space skip_blanks str_eq
net_dev_run = refl

parse_proc_net_dev-All_run :
    (length (parse_proc_net_dev (some net_dev) 8) ≤ 8)
    × All IsNamed (parse_proc_net_dev (some net_dev) 8)
parse_proc_net_dev-All_run = parse_proc_net_dev-All (some net_dev) 8

abbrev statics : Collector ℕ
statics = record running {
  short = replicate 8 no_track;
  long = replicate 8 no_track;
  minute_rx = replicate 8 0;
  minute_tx = replicate 8 0;
}

statics-IsStatic : IsStatic statics
statics-IsStatic = record {
  short_size = refl;
  short_rows =
      All-replicate (λ (t : Track ℕ). (t.head < short_len) × (t.count ≤ short_len)) 8 {v = no_track}
        (omega arith, omega arith);
  long_size = refl;
  long_rows =
      All-replicate (λ (t : Track ℕ). (t.head < long_len) × (t.count ≤ long_len)) 8 {v = no_track}
        (omega arith, omega arith);
  rx_size = refl;
  tx_size = refl;
}

abbrev started : Collector ℕ
started = init none (some infos) (some net_dev) later statics

-- after one tick of the fast timer
Reach-init-IsOk_example :
    IsOk (fast_timer (some net_dev) later none none started)
    × ((infos' : Option (List IfaceInfo)) (dns' : Bytes → Bytes → ℕ → Probe ℕ) (arp : List ArpEntry)
          (trace quality : Bytes → WanDiscovery ℕ → WanDiscovery ℕ)
        → (u : Collector ℕ) × (slow_timer infos' dns' arp trace quality
              (fast_timer (some net_dev) later none none started)
            ≡ some u))
Reach-init-IsOk_example =
    Reach-init-IsOk none infos (some net_dev) later statics
      (fast_timer (some net_dev) later none none started) statics-IsStatic (omega arith)
      (next here (fast_step (some net_dev) later none none))
