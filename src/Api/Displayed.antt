-- ===== src/Api/Displayed.antt =====
-- From the state of the collector to the display: the API, the encoder, the wire and the receiver.
use embedded_network_monitor.Prelude.{ℕ, ◌≡◌}
use embedded_network_monitor.Prelude.Floating.{Floating}
use embedded_network_monitor.Satellite.Json.{Json}
use embedded_network_monitor.Satellite.Data.{update_snapshot, SatData}
use embedded_network_monitor.NetState.{NetState, WanDiscovery}
use embedded_network_monitor.Api.Shown.{shown_state}
use embedded_network_monitor.Alerts.State.{Alerts}
use embedded_network_monitor.Satellite.Receiver.{Receiver}
use embedded_network_monitor.Api.Json.{set_flag}
use embedded_network_monitor.Satellite.EndToEnd.{flags_kept}

module _ {D : Type 0} ⦃f : Floating D⦄ where
  -- What the display then says of the gateway, the DNS server, the resolution of names and the WAN is
  -- what the collector has found.
  pub connectivity_displayed :
      (m : SatData D) (state : NetState D) (alerts : Alerts) (wan : WanDiscovery D) (wall : ℕ)
      → let shown = update_snapshot m (shown_state state alerts wan wall) in
        let c = state.connectivity in
        (shown.gw_up ≡ set_flag c.gateway_reachable)
        × (shown.dns_up ≡ set_flag c.dns_reachable)
        × (shown.dns_resolves ≡ set_flag c.dns_resolves)
        × (shown.wan_up ≡ set_flag wan.wan_reachable)
  unfolding update_snapshot
  connectivity_displayed m state alerts wan wall = flags_kept _ _ _ _
