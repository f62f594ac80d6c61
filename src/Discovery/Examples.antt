-- ===== src/Discovery/Examples.antt =====
-- Instances of the theorems on the discovery.
use embedded_network_monitor.Prelude.{
  ℕ, ◌*◌, ◌≤◌, ◌≡◌, refl, Option, none, some, ◌==◌, if◌then◌else◌, Bytes, codes, length,
}
use embedded_network_monitor.Prelude.Floating.{nat_floating}
use embedded_network_monitor.Discovery.Trace.{
  max_hops, blank_wan, trace_wan, trace_from, hop_seen, from_target, add_hop, note_wan,
}
use embedded_network_monitor.Discovery.Quality.{attempts, wan_quality, lost, wan_quality_lem}
use embedded_network_monitor.Discovery.Hops.{Follows, trace_wan-Follows}

abbrev ntoa : ℕ → Bytes
ntoa ip = codes "10.0.0.1"

-- a gateway, silence, a router of the provider, the target
abbrev probe : ℕ → Option (ℕ × ℕ)
probe ttl =
    if ttl == 1
    then some (1, 2)
    else if ttl == 3
    then some (9, 14)
    else if ttl == 4
    then some (7, 20)
    else none

trace_run : length (trace_wan {D = ℕ} ntoa 1 7 probe).hops ≡ 4
unfolding trace_wan trace_from hop_seen from_target add_hop note_wan
trace_run = refl

trace_wan-Follows_example :
    Follows {D = ℕ} ntoa 1 7 probe (trace_wan ntoa 1 7 probe)
    × (length (trace_wan {D = ℕ} ntoa 1 7 probe).hops ≤ max_hops)
trace_wan-Follows_example = trace_wan-Follows ntoa 1 7 probe

abbrev ping : ℕ → Option ℕ
ping i = if i == 0 then some 12 else if i == 3 then some 18 else none

wan_quality_lem_run :
    let t = wan_quality {D = ℕ} ping blank_wan in
    (t.wan_packet_loss_pct ≡ 20 * lost ping attempts 0)
    × (t.wan_packet_loss_pct ≤ 100)
    × (lost ping attempts 0 ≡ attempts → (t.wan_latency_ms ≡ 0) × (t.wan_jitter_ms ≡ 0))
wan_quality_lem_run = wan_quality_lem ping blank_wan
