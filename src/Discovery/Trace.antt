-- ===== src/Discovery/Trace.antt =====
-- `discovery_trace_wan`. A probe takes the time to live and gives the responder and its latency, or
-- `none` for -1; `ntoa` is `inet_ntoa`, `gw` and `target` are the two addresses as numbers.
use embedded_network_monitor.Prelude.{
  ℕ, zero, suc, Bool, false, not, ◌&&◌, Option, none, some, [], ◌∷◌, ◌++◌, ltb, leb, ◌==◌,
  if◌then◌else◌, Bytes, codes, length, take,
}
use embedded_network_monitor.Prelude.Floating.{Floating}
use embedded_network_monitor.NetState.{Hop, WanDiscovery}

abbrev pub max_hops : ℕ
max_hops = 4

module _ {D : Type 0} ⦃f : Floating D⦄ where
  abbrev pub hop_of : (ℕ → Bytes) → Option (ℕ × D) → Hop D
  hop_of ntoa none = record {
    ip_addr = 0;
    latency_ms = f.zero_d;
    reachable = 0;
    ip_str = codes "*";
  }
  hop_of ntoa (some (ip, lat)) = record {
    ip_addr = ip;
    latency_ms = lat;
    reachable = 1;
    ip_str = take 15 (ntoa ip);
  }

  abbrev pub blank_wan : WanDiscovery D
  blank_wan = record {
    hops = [];
    wan_reachable = 0;
    wan_latency_ms = f.zero_d;
    wan_jitter_ms = f.zero_d;
    wan_packet_loss_pct = 0;
  }

module _ {D : Type 0} where
  unfoldable pub add_hop : Hop D → WanDiscovery D → WanDiscovery D
  add_hop hop w = if ltb (length w.hops) max_hops then record w { hops = w.hops ++ hop ∷ [] } else w

  -- a hop beyond the gateway
  unfoldable pub note_wan : ℕ → ℕ → D → WanDiscovery D → WanDiscovery D
  note_wan gw ip lat w =
      if not (ip == gw) && leb 2 (length w.hops)
      then record w { wan_reachable = 1; wan_latency_ms = lat }
      else w

module _ {D : Type 0} ⦃f : Floating D⦄ where
  -- what one answer adds to the result
  unfoldable pub hop_seen : (ℕ → Bytes) → ℕ → Option (ℕ × D) → WanDiscovery D → WanDiscovery D
  unfolding add_hop note_wan
  hop_seen ntoa gw none w = add_hop (hop_of ntoa none) w
  hop_seen ntoa gw (some (ip, lat)) w =
      note_wan gw ip lat (add_hop (hop_of ntoa (some (ip, lat))) w)

  -- the answer of the target itself, which ends the trace
  unfoldable pub from_target : ℕ → Option (ℕ × D) → Bool
  from_target target none = false
  from_target target (some (ip, lat)) = ip == target

module _ {D : Type 0} ⦃f : Floating D⦄ (ntoa : ℕ → Bytes) (gw target : ℕ)
    (probe : ℕ → Option (ℕ × D)) where
  -- `n` more hops, from this time to live on
  unfoldable pub trace_from : ℕ → ℕ → WanDiscovery D → WanDiscovery D
  unfolding hop_seen from_target
  trace_from zero ttl w = w
  trace_from (suc n) ttl w =
      let seen = hop_seen ntoa gw (probe ttl) w in
      let further = trace_from n (suc ttl) seen in
      if from_target target (probe ttl) then seen else further

  unfoldable pub trace_wan : WanDiscovery D
  unfolding trace_from
  trace_wan = trace_from max_hops 1 blank_wan
