-- ===== src/Collector/Failed.antt =====
-- The runs of the collector after a start whose enumeration fails.
use embedded_network_monitor.Prelude.{
  ℕ, ◌+◌, ◌≡◌, refl, sym, ap, ◌∙◌, inl, inr, Option, none, some, List, [], ◌∷◌, arith, leb,
  Bool-cases, Bytes, length,
}
use mathlib.Core.Path.{subst}
use embedded_network_monitor.Prelude.Int.{negsuc}
use embedded_network_monitor.Prelude.Floating.{Floating}
use embedded_network_monitor.NetState.{
  NetStats, IfaceInfo, ArpEntry, Connection, WifiInfo, WanDiscovery, max_interfaces,
}
use embedded_network_monitor.Config.Entries.{Config}
use embedded_network_monitor.Collector.State.{Collector, Clock, find_iface}
use embedded_network_monitor.Collector.Fast.{rate_step, minute_step, tick, fast_timer}
use embedded_network_monitor.Collector.Medium.{medium_timer, collect, infra_step, Probe}
use embedded_network_monitor.Collector.Slow.{
  slow_timer, merge, merge_one, merge_found, add_iface, probes, probe_dns, wan_step,
}
use embedded_network_monitor.Collector.Start.{init, load_infra_config, new_ifaces}
use embedded_network_monitor.Collector.Kept.{
  IsKept, rate_step-IsKept, flush_minute-IsKept, read_meminfo-count, set_uptime-count,
}
use embedded_network_monitor.Collector.Rates.{read_meminfo-ifaces, set_uptime-ifaces}
use embedded_network_monitor.Collector.Merge.{length-store_stats}
use embedded_network_monitor.Collector.Invariant.{length-read_wifi}
use embedded_network_monitor.Collector.Reach.{
  Step, Reach, fast_step, medium_step, slow_step, here, next,
}
use embedded_network_monitor.Collector.Proc.{parse_proc_net_dev, read_meminfo, set_uptime}

length-none : {A : Type 0} (xs : List A) → length xs ≡ 0 → xs ≡ []
length-none [] h = refl
length-none (x ∷ xs) h = absurd (omega (arith, h))

module _ {D : Type 0} ⦃f : Floating D⦄ where
  -- the count is -1, and there is no interface
  record IsLost (c : Collector D) : Type 0 where
    count : c.net.num_ifaces ≡ negsuc 0
    size : length c.net.ifaces ≡ 0

  IsLost-IsKept : (c t : Collector D) → IsLost c → IsKept c t → IsLost t
  IsLost-IsKept c t h k = record { count = k.same_count ∙ h.count; size = k.same_ifaces ∙ h.size }

  minute_step-IsLost : (c : Collector D) → IsLost c → IsLost (minute_step c)
  unfolding minute_step
  minute_step-IsLost c h = elim (Bool-cases (leb 60 (c.minute_count + 1))) [
    | inl e ↦
        let k = flush_minute-IsKept (length c.net.ifaces) 0 c in
        rw e (record { count = k.same_count ∙ h.count; size = k.same_ifaces ∙ h.size })
    | inr e ↦ rw e (record { count = h.count; size = h.size })
  ]

  tick-IsLost :
      (curs : List NetStats) (now : Clock) (c : Collector D) → IsLost c → IsLost (tick curs now c)
  unfolding tick
  tick-IsLost curs now c h =
      let rated = IsLost-IsKept c (rate_step curs now c) h (rate_step-IsKept curs now c) in
      let timed = minute_step-IsLost (rate_step curs now c) rated in
      record {
        count = timed.count;
        size = length-store_stats curs (minute_step (rate_step curs now c)).net.ifaces ∙ timed.size;
      }

  fast_timer-IsLost :
      (net_dev : Option Bytes) (now : Clock) (uptime : Option ℕ) (meminfo : Option Bytes)
      (c : Collector D)
      → IsLost c
      → IsLost (fast_timer net_dev now uptime meminfo c)
  unfolding fast_timer
  fast_timer-IsLost net_dev now uptime meminfo c h =
      let net = read_meminfo meminfo (set_uptime uptime c.net) in
      let start : IsLost (record c { net = net }) = record {
        count =
            read_meminfo-count meminfo (set_uptime uptime c.net)
            ∙ set_uptime-count uptime c.net
            ∙ h.count;
        size =
            ap length (
              read_meminfo-ifaces meminfo (set_uptime uptime c.net)
              ∙ set_uptime-ifaces uptime c.net)
            ∙ h.size;
      } in
      tick-IsLost (parse_proc_net_dev net_dev max_interfaces) now (record c { net = net }) start

  collect-IsLost :
      (ping : Bytes → ℕ → Probe D) (connections : List Connection)
      (wifi : Bytes → WifiInfo D → WifiInfo D) (c : Collector D)
      → IsLost c
      → IsLost (collect ping connections wifi c)
  unfolding collect infra_step
  collect-IsLost ping connections wifi c h = record {
    count = h.count;
    size = length-read_wifi wifi c.net.ifaces ∙ h.size;
  }

  abbrev Lost : Option (Collector D) → Type 0
  Lost none = Unit
  Lost (some t) = IsLost t

  probes-Lost :
      (dns : Bytes → Bytes → ℕ → Probe D) (arp : List ArpEntry)
      (trace quality : Bytes → WanDiscovery D → WanDiscovery D) (c : Collector D)
      → IsLost c
      → Lost (probes dns arp trace quality (some c))
  unfolding probes probe_dns wan_step
  probes-Lost dns arp trace quality c h = elim (Bool-cases (leb 2 (c.wan_tick + 1))) [
    | inl e ↦ rw e (record { count = h.count; size = h.size })
    | inr e ↦ rw e (record { count = h.count; size = h.size })
  ]

  slow_timer-none :
      (info : IfaceInfo) (infos : List IfaceInfo) (dns : Bytes → Bytes → ℕ → Probe D)
      (arp : List ArpEntry) (trace quality : Bytes → WanDiscovery D → WanDiscovery D)
      (c : Collector D)
      → IsLost c
      → slow_timer (some (info ∷ infos)) dns arp trace quality c ≡ none
  unfolding slow_timer merge merge_one merge_found add_iface probes find_iface
  slow_timer-none info infos dns arp trace quality c h =
      rw (length-none c.net.ifaces h.size, h.count) refl

  slow_timer-Lost :
      (infos : Option (List IfaceInfo)) (dns : Bytes → Bytes → ℕ → Probe D) (arp : List ArpEntry)
      (trace quality : Bytes → WanDiscovery D → WanDiscovery D) (c : Collector D)
      → IsLost c
      → Lost (slow_timer infos dns arp trace quality c)
  slow_timer-Lost none dns arp trace quality c h =
      unfold slow_timer merge in probes-Lost dns arp trace quality c h
  slow_timer-Lost (some []) dns arp trace quality c h =
      unfold slow_timer merge in probes-Lost dns arp trace quality c h
  slow_timer-Lost (some (info ∷ infos)) dns arp trace quality c h =
      subst Lost (sym (slow_timer-none info infos dns arp trace quality c h)) tt

  Step-IsLost : {c t : Collector D} → Step c t → IsLost c → IsLost t
  unfolding medium_timer
  Step-IsLost (fast_step net_dev now uptime meminfo) h =
      fast_timer-IsLost net_dev now uptime meminfo _ h
  Step-IsLost (medium_step ping connections wifi now alerts) h =
      collect-IsLost ping connections wifi _ h
  Step-IsLost (slow_step infos dns arp trace quality t e) h =
      subst Lost e (slow_timer-Lost infos dns arp trace quality _ h)

  Reach-IsLost : {c t : Collector D} → Reach c t → IsLost c → IsLost t
  Reach-IsLost here h = h
  Reach-IsLost (next r s) h = Step-IsLost s (Reach-IsLost r h)

  init-IsLost :
      (cfg : Option Config) (net_dev : Option Bytes) (now : Clock) (c : Collector D)
      → IsLost (init cfg none net_dev now c)
  unfolding init load_infra_config new_ifaces
  init-IsLost cfg net_dev now c = record {
    count = refl;
    size = length-store_stats (parse_proc_net_dev net_dev max_interfaces) [];
  }

  -- After a start whose enumeration fails and any run of the timers, whatever they read and however many
  -- enumerations fail or find nothing, the first enumeration that finds an interface makes the slow timer
  -- write before the array.
  pub slow_timer-init :
      (cfg : Option Config) (net_dev : Option Bytes) (now : Clock) (info : IfaceInfo)
      (infos : List IfaceInfo) (dns : Bytes → Bytes → ℕ → Probe D) (arp : List ArpEntry)
      (trace quality : Bytes → WanDiscovery D → WanDiscovery D) (c t : Collector D)
      → Reach (init cfg none net_dev now c) t
      → slow_timer (some (info ∷ infos)) dns arp trace quality t ≡ none
  slow_timer-init cfg net_dev now info infos dns arp trace quality c t run =
      slow_timer-none info infos dns arp trace quality t
        (Reach-IsLost run (init-IsLost cfg net_dev now c))
