-- ===== src/Collector/Slow.antt =====
-- `slow_timer_cb`. The list of interfaces, `none` for the result -1, and the ARP table are arguments.
-- `none` is the outcome of a write outside the array of interfaces.
use embedded_network_monitor.Prelude.{
  ℕ, ◌+◌, Option, none, some, List, [], ◌∷◌, ◌++◌, ltb, leb, ◌==◌, if◌then◌else◌, Bytes, codes,
}
use embedded_network_monitor.Prelude.Int.{ℤ, pos, negsuc}
use embedded_network_monitor.Prelude.Floating.{Floating}
use embedded_network_monitor.NetState.{
  max_interfaces, NetStats, IfaceInfo, ArpEntry, IfaceState, Hop, WanDiscovery,
}
use embedded_network_monitor.Collector.State.{Collector, find_iface, modify, setting}
use embedded_network_monitor.Collector.Medium.{Probe, default_ping_target}

abbrev pub no_stats : NetStats
no_stats = record {
  name = [];
  rx_bytes = 0;
  tx_bytes = 0;
  rx_packets = 0;
  tx_packets = 0;
  rx_errors = 0;
  tx_errors = 0;
  rx_dropped = 0;
  tx_dropped = 0;
  collisions = 0;
}

abbrev pub listed : Option (List IfaceInfo) → List IfaceInfo
listed none = []
listed (some infos) = infos

module _ {D : Type 0} ⦃f : Floating D⦄ where
  -- all zero but for what is known of the interface
  abbrev pub new_iface : IfaceInfo → IfaceState D
  new_iface info = record {
    info = info;
    stats = no_stats;
    rates = record {
      rx_bytes_per_sec = f.zero_d;
      tx_bytes_per_sec = f.zero_d;
      rx_packets_per_sec = f.zero_d;
      tx_packets_per_sec = f.zero_d;
      rx_errors_per_sec = f.zero_d;
      tx_errors_per_sec = f.zero_d;
    };
    wifi = record {
      ssid = [];
      signal_dbm = pos 0;
      link_quality = pos 0;
      noise_dbm = pos 0;
      bitrate_mbps = f.zero_d;
    };
    peak_rx_bps = f.zero_d;
    peak_tx_bps = f.zero_d;
    rx_bytes_today = 0;
    tx_bytes_today = 0;
  }

  -- an interface that is not found, by the value of `num_ifaces`
  unfoldable pub add_iface : ℤ → IfaceInfo → Collector D → Option (Collector D)
  add_iface (negsuc n) info c = none
  add_iface (pos n) info c =
      if ltb n max_interfaces
      then some (record c {
        net = record c.net {
          num_ifaces = pos (n + 1);
          ifaces = c.net.ifaces ++ new_iface info ∷ [];
        };
        promiscuous_on =
            if c.promiscuous then c.promiscuous_on ++ info.name ∷ [] else c.promiscuous_on;
      })
      else some c

  unfoldable pub merge_found : Option ℕ → IfaceInfo → Collector D → Option (Collector D)
  unfolding add_iface modify
  merge_found none info c = add_iface c.net.num_ifaces info c
  merge_found (some j) info c = some (record c {
    net = record c.net { ifaces = modify c.net.ifaces j (λ st. record st { info = info }) };
  })

  unfoldable pub merge_one : IfaceInfo → Collector D → Option (Collector D)
  unfolding merge_found find_iface
  merge_one info c = merge_found (find_iface c.net.ifaces info.name) info c

  unfoldable pub merge : List IfaceInfo → Collector D → Option (Collector D)
  unfolding merge_one
  merge [] c = some c
  merge (info ∷ infos) c = elim (merge_one info c) [ none ↦ none | some t ↦ merge infos t ]

module _ {D : Type 0} where
  -- `num_hops >= 2 && hops[1].reachable`
  abbrev pub next_hop : List (Hop D) → Option (Hop D)
  next_hop [] = none
  next_hop (gw ∷ []) = none
  next_hop (gw ∷ hop ∷ hops) = if hop.reachable == 0 then none else some hop

  unfoldable pub test_hop :
      (Bytes → WanDiscovery D → WanDiscovery D) → Option (Hop D) → WanDiscovery D → WanDiscovery D
  test_hop quality none wan = wan
  test_hop quality (some hop) wan = quality hop.ip_str wan

  -- every other tick
  unfoldable pub wan_step :
      (Bytes → WanDiscovery D → WanDiscovery D)
      → (Bytes → WanDiscovery D → WanDiscovery D)
      → Collector D
      → Collector D
  unfolding test_hop setting
  wan_step trace quality c =
      let wan = trace (setting c.cfg (codes "ping_target") default_ping_target) c.wan in
      if leb 2 (c.wan_tick + 1)
      then record c { wan_tick = 0; wan = test_hop quality (next_hop wan.hops) wan }
      else record c { wan_tick = c.wan_tick + 1 }

  -- the DNS probe and the ARP table
  unfoldable pub probe_dns :
      (Bytes → Bytes → ℕ → Probe D) → List ArpEntry → Collector D → Collector D
  unfolding setting
  probe_dns dns arp c =
      let p =
        dns (setting c.cfg (codes "dns_target") (codes "8.8.8.8"))
          (setting c.cfg (codes "dns_test_hostname") (codes "google.com")) 3000 in
      record c {
        net = record c.net {
          connectivity = record c.net.connectivity {
            dns_reachable = p.reachable;
            dns_resolves = p.reachable;
            dns_latency_ms = p.latency;
          };
          arp_table = arp;
        };
      }

  -- behind the merge of the interfaces
  unfoldable pub probes :
      (Bytes → Bytes → ℕ → Probe D)
      → List ArpEntry
      → (Bytes → WanDiscovery D → WanDiscovery D)
      → (Bytes → WanDiscovery D → WanDiscovery D)
      → Option (Collector D)
      → Option (Collector D)
  unfolding probe_dns wan_step
  probes dns arp trace quality none = none
  probes dns arp trace quality (some c) = some (wan_step trace quality (probe_dns dns arp c))

module _ {D : Type 0} ⦃f : Floating D⦄ where
  unfoldable pub slow_timer :
      Option (List IfaceInfo)
      → (Bytes → Bytes → ℕ → Probe D)
      → List ArpEntry
      → (Bytes → WanDiscovery D → WanDiscovery D)
      → (Bytes → WanDiscovery D → WanDiscovery D)
      → Collector D
      → Option (Collector D)
  unfolding merge probes
  slow_timer infos dns arp trace quality c = probes dns arp trace quality (merge (listed infos) c)
