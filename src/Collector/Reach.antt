-- ===== src/Collector/Reach.antt =====
-- The runs of the collector: a start, and then its timers in any order, with whatever they read.
use mathlib.Core.Path.{subst}
use embedded_network_monitor.Prelude.{
  ℕ, ◌≤◌, ◌<◌, ◌≡◌, ◌∙◌, Option, some, List, [], ◌∷◌, map, arith, Bytes, length, All,
  length-replicate, length-map,
}
use embedded_network_monitor.Collector.State.{Collector, Clock, Track, short_len, long_len}
use embedded_network_monitor.Prelude.Floating.{Floating}
use embedded_network_monitor.Collector.Medium.{medium_timer, Probe}
use embedded_network_monitor.Collector.Kept.{IsOk}
use embedded_network_monitor.Collector.Invariant.{fast_timer-IsOk, collect-IsOk, slow_timer-IsOk}
use embedded_network_monitor.Collector.Start.{init, load_infra_config, wipe}
use embedded_network_monitor.Config.Entries.{Config}
use embedded_network_monitor.Collector.Fast.{fast_timer}
use embedded_network_monitor.Collector.History.{IsTrack}
use embedded_network_monitor.NetState.{
  IfaceInfo, max_interfaces, Connection, ArpEntry, WifiInfo, WanDiscovery,
}
use embedded_network_monitor.Collector.Merge.{init-IsCounted}
use embedded_network_monitor.Alerts.State.{Alerts}
use embedded_network_monitor.Collector.Slow.{slow_timer}

-- The static arrays before the start: zeroed, or as an earlier run has left them.
pub record IsStatic {D : Type 0} (c : Collector D) : Type 0 where
  pub short_size : length c.short ≡ max_interfaces
  pub short_rows : All (λ t. (t.head < short_len) × (t.count ≤ short_len)) c.short
  pub long_size : length c.long ≡ max_interfaces
  pub long_rows : All (λ t. (t.head < long_len) × (t.count ≤ long_len)) c.long
  pub rx_size : length c.minute_rx ≡ max_interfaces
  pub tx_size : length c.minute_tx ≡ max_interfaces

module _ {D : Type 0} ⦃f : Floating D⦄ where
  -- One callback. The timers of LVGL run one after the other, so that a step is a whole callback. The
  -- slow timer steps only where it has an outcome.
  pub data Step (c : Collector D) : Collector D → Type 0 where
    fast_step :
        (net_dev : Option Bytes) (now : Clock) (uptime : Option ℕ) (meminfo : Option Bytes)
        → Step c (fast_timer net_dev now uptime meminfo c)
    medium_step :
        (ping : Bytes → ℕ → Probe D) (connections : List Connection)
        (wifi : Bytes → WifiInfo D → WifiInfo D) (now : ℕ) (alerts : Alerts)
        → Step c (medium_timer ping connections wifi now c alerts).0
    slow_step :
        (infos : Option (List IfaceInfo)) (dns : Bytes → Bytes → ℕ → Probe D) (arp : List ArpEntry)
        (trace quality : Bytes → WanDiscovery D → WanDiscovery D) (t : Collector D)
        → slow_timer infos dns arp trace quality c ≡ some t
        → Step c t

  pub data Reach (c : Collector D) : Collector D → Type 0 where
    here : Reach c c
    next : {t u : Collector D} → Reach c t → Step t u → Reach c u

  Step-IsOk : {c t : Collector D} → Step c t → IsOk c → IsOk t
  unfolding medium_timer
  Step-IsOk (fast_step net_dev now uptime meminfo) h =
      fast_timer-IsOk net_dev now uptime meminfo _ h
  Step-IsOk (medium_step ping connections wifi now alerts) h =
      collect-IsOk ping connections wifi _ h
  Step-IsOk (slow_step infos dns arp trace quality t e) h =
      let (u, made, ok) = slow_timer-IsOk infos dns arp trace quality _ h in
      let same : u ≡ t = cc in subst IsOk same ok

  Reach-IsOk : {c t : Collector D} → Reach c t → IsOk c → IsOk t
  Reach-IsOk here h = h
  Reach-IsOk (next r s) h = Step-IsOk s (Reach-IsOk r h)

  wipe-IsTrack :
      (cap : ℕ) (ts : List (Track D))
      → All (λ t. (t.head < cap) × (t.count ≤ cap)) ts
      → All (IsTrack cap) (map (wipe cap) ts)
  wipe-IsTrack cap [] h = tt
  wipe-IsTrack cap (t ∷ ts) h = (
    record {
      size = length-replicate cap (record { rx_bps = f.zero_d; tx_bps = f.zero_d });
      head_in = h.0.0;
      count_in = h.0.1;
    },
    wipe-IsTrack cap ts h.1,
  )

  init-IsOk :
      (cfg : Option Config) (infos : List IfaceInfo) (net_dev : Option Bytes) (now : Clock)
      (c : Collector D)
      → IsStatic c
      → length infos ≤ max_interfaces
      → IsOk (init cfg (some infos) net_dev now c)
  unfolding init load_infra_config
  init-IsOk cfg infos net_dev now c h fits = record {
    counted = init-IsCounted cfg infos net_dev now c fits;
    short_size = length-map (wipe short_len) c.short ∙ h.short_size;
    short_rows = wipe-IsTrack short_len c.short h.short_rows;
    long_size = length-map (wipe long_len) c.long ∙ h.long_size;
    long_rows = wipe-IsTrack long_len c.long h.long_rows;
    rx_size = h.rx_size;
    tx_size = h.tx_size;
    minute_in = omega arith;
  }

  -- After a start whose enumeration succeeds with at most 8 interfaces, and any run of the fast, the
  -- medium and the slow timer, whatever they read: the count is that of the interfaces, at most 8,
  -- every array has its 8 rows, every history row has its head and its count in its capacity, and the
  -- slow timer has an outcome.
  pub Reach-init-IsOk :
      (cfg : Option Config) (infos : List IfaceInfo) (net_dev : Option Bytes) (now : Clock)
      (c t : Collector D)
      → IsStatic c
      → length infos ≤ max_interfaces
      → Reach (init cfg (some infos) net_dev now c) t
      → IsOk t
        × ((infos' : Option (List IfaceInfo)) (dns : Bytes → Bytes → ℕ → Probe D)
              (arp : List ArpEntry) (trace quality : Bytes → WanDiscovery D → WanDiscovery D)
            → (u : Collector D) × (slow_timer infos' dns arp trace quality t ≡ some u))
  Reach-init-IsOk cfg infos net_dev now c t static fits run =
      let ok = Reach-IsOk run (init-IsOk cfg infos net_dev now c static fits) in
      (
        ok,
        λ infos' dns arp trace quality.
            let (u, e, ok') = slow_timer-IsOk infos' dns arp trace quality t ok in (u, e),
      )
