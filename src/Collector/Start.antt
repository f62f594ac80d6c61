-- ===== src/Collector/Start.antt =====
-- `net_collector_init`, without the WiFi manager and the timers, and src/net/net_infra.c.
use embedded_network_monitor.Prelude.{
  ℕ, zero, suc, min, Bool, false, not, Option, none, some, List, [], ◌∷◌, ◌++◌, map, ◌==◌,
  if◌then◌else◌, Bytes, codes, str_eq, length, replicate,
}
use embedded_network_monitor.Prelude.Int.{ℤ, pos, negsuc, pos_part}
use embedded_network_monitor.Prelude.Floating.{Floating}
use embedded_network_monitor.NetState.{
  max_interfaces, IfaceInfo, IfaceState, InfraType, router, switch, ap, other, InfraDevice,
  WanDiscovery, NetState,
}
use embedded_network_monitor.Config.Entries.{Config, copy_str, get_int}
use embedded_network_monitor.Config.Text.{decimal}
use embedded_network_monitor.Collector.State.{Track, Clock, Collector, short_len, long_len, setting}
use embedded_network_monitor.Collector.Proc.{parse_proc_net_dev}
use embedded_network_monitor.Collector.Fast.{keep_stats, store_stats}
use embedded_network_monitor.Collector.Slow.{no_stats, new_iface, listed}

abbrev pub is_zero : ℤ → Bool
is_zero (pos n) = n == 0
is_zero (negsuc n) = false

-- `infra_parse_type`
unfoldable pub parse_type : Option Bytes → InfraType
parse_type none = other
parse_type (some s) =
    if str_eq s (codes "router")
    then router
    else if str_eq s (codes "switch")
    then switch
    else if str_eq s (codes "ap")
    then ap
    else other

abbrev pub max_infra_devices : ℕ
max_infra_devices = 8

abbrev pub infra_key : ℕ → Bytes → Bytes
infra_key i field = copy_str 64 (codes "infra_" ++ decimal (pos i) ++ field)

-- the count as it is returned
abbrev pub count_of : Option (List IfaceInfo) → ℤ
count_of none = negsuc 0
count_of (some infos) = pos (length infos)

-- the names, in the order in which `apply_promiscuous_mode` goes through them
unfoldable pub iface_names : {D : Type 0} → List (IfaceState D) → List Bytes
iface_names [] = []
iface_names (st ∷ sts) = st.info.name ∷ iface_names sts

module _ {D : Type 0} ⦃f : Floating D⦄ where
  unfoldable pub load_device : Option Config → ℕ → InfraDevice D
  unfolding setting parse_type
  load_device cfg i =
      let ip = copy_str 16 (setting cfg (infra_key i (codes "_ip")) []) in
      record {
        name = copy_str 32 (setting cfg (infra_key i (codes "_name")) (codes "Device"));
        ip_str = ip;
        type = parse_type (some (setting cfg (infra_key i (codes "_type")) (codes "other")));
        enabled = if length ip == 0 then 0 else 1;
        reachable = 0;
        latency_ms = f.zero_d;
        consecutive_fails = 0;
      }

  -- `n` devices from `i` on
  unfoldable pub load_devices : Option Config → ℕ → ℕ → List (InfraDevice D)
  unfolding load_device
  load_devices cfg zero i = []
  load_devices cfg (suc n) i = load_device cfg i ∷ load_devices cfg n (suc i)

  -- A negative count stands for no device, as for every reader of `num_infra`.
  unfoldable pub load_infra_config : Collector D → Collector D
  unfolding load_devices get_int
  load_infra_config c =
      let count =
        min (pos_part (get_int c.cfg (some (codes "infra_count")) (pos 0))) max_infra_devices in
      record c { net = record c.net { infra = load_devices c.cfg count 0 }; infra_idx = 0 }

  -- `memset` of a history row; its head and its count stay
  abbrev pub wipe : ℕ → Track D → Track D
  wipe capacity t = record t {
    buf = replicate capacity (record { rx_bps = f.zero_d; tx_bps = f.zero_d });
  }

  abbrev pub no_net : NetState D
  no_net = record {
    num_ifaces = pos 0;
    ifaces = [];
    connectivity = record {
      gateway_reachable = 0;
      gateway_latency_ms = f.zero_d;
      dns_reachable = 0;
      dns_resolves = 0;
      dns_latency_ms = f.zero_d;
    };
    arp_table = [];
    connections = [];
    infra = [];
    uptime_sec = 0;
    mem_total_kb = 0;
    mem_free_kb = 0;
    mem_available_kb = 0;
  }

  abbrev pub no_wan : WanDiscovery D
  no_wan = record {
    hops = [];
    wan_reachable = 0;
    wan_latency_ms = f.zero_d;
    wan_jitter_ms = f.zero_d;
    wan_packet_loss_pct = 0;
  }

  unfoldable pub new_ifaces : List IfaceInfo → List (IfaceState D)
  new_ifaces [] = []
  new_ifaces (info ∷ infos) = new_iface info ∷ new_ifaces infos

  unfoldable pub init :
      Option Config → Option (List IfaceInfo) → Option Bytes → Clock → Collector D → Collector D
  unfolding load_infra_config new_ifaces iface_names store_stats parse_proc_net_dev
  init cfg infos net_dev now c =
      let stats = parse_proc_net_dev net_dev max_interfaces in
      let ifaces = new_ifaces (listed infos) in
      let promiscuous = not (is_zero (get_int cfg (some (codes "promiscuous_mode")) (pos 1))) in
      let blank = load_infra_config (record c {
        net = no_net;
        cfg = cfg;
        short = map (wipe short_len) c.short;
        long = map (wipe long_len) c.long;
        prev_valid = false;
        minute_count = 0;
        wan = no_wan;
        wan_tick = 0;
      }) in
      record blank {
        net = record blank.net { num_ifaces = count_of infos; ifaces = store_stats stats ifaces };
        promiscuous = promiscuous;
        promiscuous_on =
            if promiscuous then c.promiscuous_on ++ iface_names ifaces else c.promiscuous_on;
        prev_stats = keep_stats stats (replicate max_interfaces no_stats);
        prev_time = now;
      }
