-- ===== src/Api/Routes.antt =====
-- src/api/api_routes.c: what a request changes, and what it is answered. mongoose and cJSON's parser are
-- libraries: `match` is `mg_match` without captures, `Parser` what the code calls of cJSON to read a
-- request. The screenshot, which is read from the device, is an argument.
use embedded_network_monitor.Prelude.{
  ℕ, Bool, true, Option, none, some, List, [], ◌∷◌, if◌then◌else◌, Bytes, codes,
}
use embedded_network_monitor.NetState.{NetState, WanDiscovery}
use embedded_network_monitor.Satellite.Json.{Json}
use embedded_network_monitor.Prelude.Floating.{Floating}
use embedded_network_monitor.Alerts.State.{Alerts}
use embedded_network_monitor.Config.Entries.{Config, set_key}
use embedded_network_monitor.Api.Cjson.{Builder}
use embedded_network_monitor.Api.Json.{
  api_json_config, api_json_status, api_json_interfaces, api_json_connectivity,
  api_json_connections, api_json_alerts, api_json_infra, api_json_wan, api_json_info,
}
use embedded_network_monitor.Config.File.{save}

-- `parse` is `cJSON_ParseWithLength`; `key` is the field `string`
pub record Parser (J : Type 0) : Type 0 where
  pub parse : Bytes → Option J
  pub is_object : J → Bool
  pub is_string : J → Bool
  pub key : J → Option Bytes

-- the fields of `struct mg_http_message` that are read
pub record Request : Type 0 where
  pub method : Bytes
  pub uri : Bytes
  pub body : Bytes

pub data Answer (J : Type 0) : Type 0 where
  preflight : Answer J
  json_answer : J → Answer J
  failure : ℕ → Bytes → Answer J
  screenshot_answer : Bytes → Answer J

-- what the routes read and write; `config_file` is what was written to it last, if anything was
pub record Server (D : Type 0) : Type 0 where
  pub hostname : Bytes
  pub net : NetState D
  pub alerts : Alerts
  pub wan : WanDiscovery D
  pub cfg : Config
  pub config_file : Option Bytes

abbrev pub send_404 : {J : Type 0} → Answer J
send_404 = failure 404 (codes "{\"error\":\"not found\"}")

-- for an item that is a string or not, with its name and its text
unfoldable pub post_pair : Bool → Option Bytes → Option Bytes → Config → Config
post_pair true (some key) (some value) cfg = set_key cfg key value
post_pair _ _ _ cfg = cfg

module _ {J : Type 0} ⦃j : Json J⦄ ⦃p : Parser J⦄ where
  -- one turn of the loop over the items of the body
  unfoldable pub post_item : Config → J → Config
  unfolding post_pair
  post_item cfg item = post_pair (p.is_string item) (p.key item) (j.text item) cfg

  unfoldable pub post_items : Config → List J → Config
  unfolding post_item
  post_items cfg [] = cfg
  post_items cfg (item ∷ items) = post_items (post_item cfg item) items

  unfoldable pub only_object : Option J → Option J
  only_object none = none
  only_object (some o) = if p.is_object o then some o else none

  -- the object in the body, if it is one
  unfoldable pub body_object : Bytes → Option J
  unfolding only_object
  body_object body = only_object (p.parse body)

module _ {D : Type 0} {J : Type 0} ⦃f : Floating D⦄ ⦃j : Json J⦄ ⦃b : Builder D J⦄
    ⦃p : Parser J⦄ where
  unfoldable pub post_object : Server D → Option J → Answer J × Server D
  unfolding post_items api_json_config
  post_object s none = (failure 400 (codes "{\"error\":\"invalid JSON\"}"), s)
  post_object s (some o) =
      let cfg = post_items s.cfg (j.items o) in
      (json_answer (api_json_config D cfg), record s { cfg = cfg; config_file = some (save cfg) })

  unfoldable pub handle_post_config : Server D → Bytes → Answer J × Server D
  unfolding post_object body_object
  handle_post_config s body = post_object s (body_object body)

  unfoldable pub handle_get : (Bytes → Bytes → Bool) → Answer J → Server D → Bytes → Answer J
  unfolding api_json_status api_json_interfaces api_json_connectivity api_json_connections
      api_json_alerts api_json_infra api_json_wan api_json_config api_json_info
  handle_get match screenshot s uri =
      if match uri (codes "/api/v1/status")
      then json_answer (api_json_status s.hostname s.net s.alerts s.wan)
      else if match uri (codes "/api/v1/interfaces")
      then json_answer (api_json_interfaces s.net)
      else if match uri (codes "/api/v1/connectivity")
      then json_answer (api_json_connectivity s.net)
      else if match uri (codes "/api/v1/connections")
      then json_answer (api_json_connections s.net)
      else if match uri (codes "/api/v1/alerts")
      then json_answer (api_json_alerts D s.alerts)
      else if match uri (codes "/api/v1/infra")
      then json_answer (api_json_infra s.net)
      else if match uri (codes "/api/v1/wan")
      then json_answer (api_json_wan s.wan)
      else if match uri (codes "/api/v1/config")
      then json_answer (api_json_config D s.cfg)
      else if match uri (codes "/api/v1/screenshot")
      then screenshot
      else if match uri (codes "/api/v1/info")
      then json_answer (api_json_info s.hostname s.net)
      else send_404

  unfoldable pub api_routes_handle :
      (Bytes → Bytes → Bool) → Answer J → Server D → Request → Answer J × Server D
  unfolding handle_get handle_post_config
  api_routes_handle match screenshot s hm =
      if match hm.method (codes "OPTIONS")
      then (preflight, s)
      else if match hm.method (codes "GET")
      then (handle_get match screenshot s hm.uri, s)
      else if match hm.method (codes "POST")
      then if match hm.uri (codes "/api/v1/config")
        then handle_post_config s hm.body
        else (send_404, s)
      else (send_404, s)
