-- ===== src/Api/Status.antt =====
-- What the satellite encoder reads in the document that `api_json_status` builds.
use embedded_network_monitor.Prelude.{
  ℕ, ◌^◌, ◌<◌, ◌≡◌, refl, Option, some, map, arith, Bytes, codes, take, map-take, All-take,
  length-map,
}
use embedded_network_monitor.Prelude.Floating.{Floating}
use embedded_network_monitor.Alerts.State.{Alerts, get_log}
use embedded_network_monitor.NetState.{NetState, WanDiscovery, max_interfaces}
use embedded_network_monitor.Api.Json.{
  set_flag, number_item, json_iface, alert_json, api_json_info, api_json_connectivity, api_json_wan,
  api_json_alerts, api_json_status, api_json_interfaces,
}
use embedded_network_monitor.Satellite.Json.{
  Json, or_if, number_or, item, tenths_or, mem_used, conn_flags, status_snapshot, children,
}
use embedded_network_monitor.Api.Cjson.{Builder, IsBuilder, same_key, tolower, array}
use embedded_network_monitor.Api.Built.{get-object, items-array}
use embedded_network_monitor.Api.Shown.{
  IsExact, used_pct, IsIfaceRange, IsRange, tenths_of, shown_state,
}
use embedded_network_monitor.Api.Ifaces.{
  number-stored, flag-stored, ifaces_data-map, max_severity-highest,
}

module _ {D : Type 0} {J : Type 0} ⦃f : Floating D⦄ ⦃j : Json J⦄ ⦃b : Builder D J⦄
    (laws : IsBuilder D J) (exact : IsExact D) where
  info_items :
      (hostname : Bytes) (state : NetState D)
      → let at : Bytes → Option J = item (some (api_json_info hostname state)) in
        (at (codes "uptime_sec") ≡ some (number_item D state.uptime_sec))
        × (at (codes "mem_total_kb") ≡ some (number_item D state.mem_total_kb))
        × (at (codes "mem_available_kb") ≡ some (number_item D state.mem_available_kb))
  unfolding item api_json_info same_key tolower
  info_items hostname state =
      (rw (get-object D laws) refl, rw (get-object D laws) refl, rw (get-object D laws) refl)

  connectivity_items :
      (state : NetState D)
      → let at : Bytes → Option J = item (some (api_json_connectivity state)) in
        let c = state.connectivity in
        (at (codes "gateway_reachable") ≡ some (b.create_bool (set_flag c.gateway_reachable)))
        × (at (codes "dns_reachable") ≡ some (b.create_bool (set_flag c.dns_reachable)))
        × (at (codes "dns_resolves") ≡ some (b.create_bool (set_flag c.dns_resolves)))
        × (at (codes "gateway_latency_ms") ≡ some (b.create_number c.gateway_latency_ms))
        × (at (codes "dns_latency_ms") ≡ some (b.create_number c.dns_latency_ms))
  unfolding item api_json_connectivity same_key tolower
  connectivity_items state = (
    rw (get-object D laws) refl,
    rw (get-object D laws) refl,
    rw (get-object D laws) refl,
    rw (get-object D laws) refl,
    rw (get-object D laws) refl,
  )

  wan_items :
      (wan : WanDiscovery D)
      → let at : Bytes → Option J = item (some (api_json_wan wan)) in
        (at (codes "wan_reachable") ≡ some (b.create_bool (set_flag wan.wan_reachable)))
        × (at (codes "wan_packet_loss_pct") ≡ some (number_item D wan.wan_packet_loss_pct))
        × (at (codes "wan_latency_ms") ≡ some (b.create_number wan.wan_latency_ms))
        × (at (codes "wan_jitter_ms") ≡ some (b.create_number wan.wan_jitter_ms))
  unfolding item api_json_wan same_key tolower
  wan_items wan = (
    rw (get-object D laws) refl,
    rw (get-object D laws) refl,
    rw (get-object D laws) refl,
    rw (get-object D laws) refl,
  )

  alerts_items :
      (alerts : Alerts)
      → let at : Bytes → Option J = item (some (api_json_alerts D alerts)) in
        (at (codes "active_count") ≡ some (number_item D alerts.active_count))
        × (at (codes "entries")
            ≡ some (array D (map (alert_json D) (take alerts.count alerts.log))))
  unfolding item api_json_alerts get_log same_key tolower
  alerts_items alerts = (rw (get-object D laws) refl, rw (get-object D laws) refl)

  status_items :
      (hostname : Bytes) (state : NetState D) (alerts : Alerts) (wan : WanDiscovery D)
      → let at : Bytes → Option J = j.get (api_json_status hostname state alerts wan) in
        (at (codes "info") ≡ some (api_json_info hostname state))
        × (at (codes "interfaces") ≡ some (api_json_interfaces state))
        × (at (codes "connectivity") ≡ some (api_json_connectivity state))
        × (at (codes "alerts") ≡ some (api_json_alerts D alerts))
        × (at (codes "wan") ≡ some (api_json_wan wan))
  unfolding api_json_status same_key tolower
  status_items hostname state alerts wan = (
    rw (get-object D laws) refl,
    rw (get-object D laws) refl,
    rw (get-object D laws) refl,
    rw (get-object D laws) refl,
    rw (get-object D laws) refl,
  )

  tenths-stored : (d : D) → tenths_or {J = J} (some (b.create_number d)) 0 ≡ tenths_of d
  unfolding tenths_or
  tenths-stored d = rw (laws.tenths_number d) refl

  mem_used-stored :
      (hostname : Bytes) (state : NetState D)
      → state.mem_total_kb < 2 ^ 32
      → state.mem_available_kb < 2 ^ 32
      → mem_used {J = J} (some (api_json_info hostname state))
        ≡ used_pct state.mem_total_kb state.mem_available_kb
  unfolding mem_used
  mem_used-stored hostname state h₁ h₂ =
      let (up, total, avail) = info_items hostname state in
      let total_of : number_or {J = J} 32 (some (number_item D state.mem_total_kb)) 1
          ≡ state.mem_total_kb =
        number-stored laws exact 32 state.mem_total_kb 1 (omega (arith, h₁)) h₁ in
      let avail_of : number_or {J = J} 32 (some (number_item D state.mem_available_kb)) 0
          ≡ state.mem_available_kb =
        number-stored laws exact 32 state.mem_available_kb 0 (omega (arith, h₂)) h₂ in
      rw (total, avail, total_of, avail_of) refl

  conn_flags-stored :
      (state : NetState D) (wan : WanDiscovery D)
      → let c = state.connectivity in
        conn_flags {J = J} (some (api_json_connectivity state)) (some (api_json_wan wan))
        ≡ or_if (set_flag wan.wan_reachable) 8 (
            or_if
              (set_flag c.dns_resolves)
              4
              (or_if (set_flag c.dns_reachable) 2 (or_if (set_flag c.gateway_reachable) 1 0)))
  unfolding conn_flags
  conn_flags-stored state wan =
      let c = state.connectivity in
      let (gw, dns, res, gw_ms, dns_ms) = connectivity_items state in
      rw
        (
          gw,
          dns,
          res,
          (wan_items wan).0,
          flag-stored laws exact wan.wan_reachable,
          flag-stored laws exact c.dns_resolves,
          flag-stored laws exact c.dns_reachable,
          flag-stored laws exact c.gateway_reachable,
        )
        refl

  items-api_json_interfaces :
      (state : NetState D) → j.items (api_json_interfaces state) ≡ map json_iface state.ifaces
  unfolding api_json_interfaces
  items-api_json_interfaces state = items-array D laws (map json_iface state.ifaces)

  -- The encoder makes of the document that the API builds exactly the snapshot of the state.
  pub status_snapshot-api_json_status :
      (hostname : Bytes) (state : NetState D) (alerts : Alerts) (wan : WanDiscovery D) (now : ℕ)
      → IsRange state alerts wan
      → status_snapshot {J = J} (api_json_status hostname state alerts wan) now
        ≡ shown_state state alerts wan now
  unfolding status_snapshot item children
  status_snapshot-api_json_status hostname state alerts wan now h =
      let (about, interfaces, conn, alert, wide) = status_items hostname state alerts wan in
      let (up, total, avail) = info_items hostname state in
      let (gw, dns, res, gw_ms, dns_ms) = connectivity_items state in
      let (reach, loss, wan_ms, jitter) = wan_items wan in
      let (active, listed) = alerts_items alerts in
      rw
        (
          about,
          interfaces,
          conn,
          alert,
          wide,
          mem_used-stored hostname state h.total_fits h.avail_fits,
          conn_flags-stored state wan,
          up,
          gw_ms,
          dns_ms,
          loss,
          wan_ms,
          jitter,
          active,
          listed,
          tenths-stored state.connectivity.gateway_latency_ms,
          tenths-stored state.connectivity.dns_latency_ms,
          tenths-stored wan.wan_latency_ms,
          tenths-stored wan.wan_jitter_ms,
          number-stored laws exact 8 alerts.active_count 0 (omega (arith, h.active_fits))
              h.active_fits,
          number-stored laws exact 8 wan.wan_packet_loss_pct 0 (omega (arith, h.loss_fits))
              h.loss_fits,
          number-stored laws exact 32 state.uptime_sec 0 (omega (arith, h.uptime_fits))
              h.uptime_fits,
          items-api_json_interfaces state,
          items-array D laws,
          map-take json_iface max_interfaces state.ifaces,
          ifaces_data-map laws exact (take max_interfaces state.ifaces)
              (All-take IsIfaceRange max_interfaces state.ifaces h.ifaces_fit),
          max_severity-highest laws exact (take alerts.count alerts.log) 0,
          length-map json_iface state.ifaces,
        )
        refl
