-- ===== src/Api/Examples.antt =====
-- A document as data, on which the assumptions about cJSON hold, and runs of the API on it.
use embedded_network_monitor.Prelude.{
  ℕ, ◌+◌, ◌-◌, ◌*◌, ◌/◌, ◌≡◌, refl, Bool, true, false, ◌&&◌, Option, none, some, List, [], ◌∷◌,
  ◌++◌, if◌then◌else◌, Bytes, codes, str_eq, replicate,
}
use embedded_network_monitor.Prelude.Floating.{Floating}
use embedded_network_monitor.Prelude.Int.{ℤ, pos, pos_part, sub_ℕ, negsuc, neg_part, ltb_ℤ}
use embedded_network_monitor.Api.Cjson.{or_else, Builder, same_key}
use embedded_network_monitor.Satellite.Json.{Json}
use embedded_network_monitor.Config.Entries.{Config}
use embedded_network_monitor.Api.Routes.{
  Parser, Server, handle_post_config, Request, api_routes_handle, send_404,
}
use embedded_network_monitor.Api.Restore.{IsParser, state-api_routes_handle}
use embedded_network_monitor.Api.Json.{api_json_config}
use embedded_network_monitor.Api.Shown.{shown_state}
use embedded_network_monitor.NetState.{IfaceState, NetState}
use embedded_network_monitor.Alerts.State.{
  Alerts, entry, gateway_unreachable, critical, blank_entry, no_counts,
}
use embedded_network_monitor.Satellite.Receiver.{Receiver, sync}
use embedded_network_monitor.Satellite.Data.{update_snapshot, SatData, history_len}
use embedded_network_monitor.Collector.Slow.{new_iface}
use embedded_network_monitor.Collector.Start.{no_net, no_wan}
use embedded_network_monitor.Satellite.Protocol.{max_frame_size}
use embedded_network_monitor.Api.Displayed.{connectivity_displayed}

-- doubles as whole numbers with a sign
instance abbrev int_floating : Floating ℤ
int_floating = record {
  zero_d = pos 0;
  of_ℕ = pos;
  to_ℕ = λ w. pos_part;
  narrow = λ d. d;
  add = λ a c. sub_ℕ (pos_part a + pos_part c) (neg_part a + neg_part c);
  sub = λ a c. sub_ℕ (pos_part a + neg_part c) (neg_part a + pos_part c);
  mul = λ a c.
      sub_ℕ (pos_part a * pos_part c + neg_part a * neg_part c)
        (pos_part a * neg_part c + neg_part a * pos_part c);
  div = λ a c. pos (pos_part a / pos_part c);
  gtb = λ a c. ltb_ℤ c a;
}

-- an object and an array grow at their ends
data Doc : Type 0 where
  empty_object empty_array : Doc
  string : Bytes → Doc
  number : ℤ → Doc
  boolean : Bool → Doc
  field : Doc → Bytes → Doc → Doc
  element : Doc → Doc → Doc
  named : Bytes → Doc → Doc

abbrev doc_get : Doc → Bytes → Option Doc
doc_get (field o name v) key = or_else (doc_get o key) (if same_key name key then some v else none)
doc_get _ key = none

abbrev doc_items : Doc → List Doc
doc_items (field o name v) = doc_items o ++ named name v ∷ []
doc_items (element a v) = doc_items a ++ v ∷ []
doc_items _ = []

abbrev doc_text : Doc → Option Bytes
doc_text (string s) = some s
doc_text (named name v) = doc_text v
doc_text _ = none

abbrev doc_is_string : Doc → Bool
doc_is_string (string s) = true
doc_is_string (named name v) = doc_is_string v
doc_is_string _ = false

abbrev doc_is_object : Doc → Bool
doc_is_object empty_object = true
doc_is_object (field o name v) = doc_is_object o
doc_is_object _ = false

abbrev doc_true : Doc → Bool
doc_true (boolean t) = t
doc_true _ = false

abbrev doc_number : Doc → ℤ
doc_number (number d) = d
doc_number _ = pos 0

abbrev doc_byte : ℤ → ℕ
doc_byte (pos n) = n
doc_byte (negsuc n) = 255 - n

abbrev doc_key : Doc → Option Bytes
doc_key (named name v) = some name
doc_key _ = none

instance abbrev doc_json : Json Doc
doc_json = record {
  get = doc_get;
  items = doc_items;
  is_true = doc_true;
  is_null = λ d. false;
  whole = λ w d. pos_part (doc_number d);
  tenths = λ d. pos_part (int_floating.mul (doc_number d) (pos 10));
  signed_byte = λ d. doc_byte (doc_number d);
  text = doc_text;
}

instance abbrev doc_builder : Builder ℤ Doc
doc_builder = record {
  create_object = empty_object;
  create_array = empty_array;
  create_string = string;
  create_number = number;
  create_bool = boolean;
  add_item = field;
  append_item = element;
}

abbrev small_body : Bytes
small_body = codes "{}"

abbrev two_entries : Config
two_entries =
    record { key = codes "api_port"; value = codes "80" }
    ∷ record { key = codes "ping_target"; value = codes "1.1.1.1" }
    ∷ []

-- a parser that finds the document of two entries in every text
instance abbrev doc_parser : Parser Doc
doc_parser = record {
  parse = λ body. some (api_json_config ℤ {J = Doc} two_entries);
  is_object = doc_is_object;
  is_string = doc_is_string;
  key = doc_key;
}

doc-IsParser : IsParser ℤ Doc
doc-IsParser = record {
  items_empty = refl;
  items_add = λ o v name. (named name v, refl, refl, refl, refl);
  text_string = λ s. refl;
  string_string = λ s. refl;
  object_empty = refl;
  object_add = λ o v name. refl;
}

abbrev wireless_iface : IfaceState ℤ
wireless_iface =
    record (new_iface (record {
      name = codes "wlan0";
      is_up = 1;
      is_running = 1;
      ip_addr = 16885952;
      netmask = 16777215;
      gateway = 0;
      mac = 2 ∷ 0 ∷ 0 ∷ 0 ∷ 0 ∷ 1 ∷ [];
      speed_mbps = 54;
      is_wireless = 1;
    })) {
      wifi = record {
        ssid = codes "home";
        signal_dbm = negsuc 59;
        link_quality = pos 50;
        noise_dbm = negsuc 89;
        bitrate_mbps = pos 54;
      };
    }

abbrev state : NetState ℤ
state = record no_net {
  num_ifaces = pos 1;
  ifaces = wireless_iface ∷ [];
  connectivity = record {
    gateway_reachable = 1;
    gateway_latency_ms = pos 3;
    dns_reachable = 1;
    dns_resolves = 0;
    dns_latency_ms = pos 20;
  };
  uptime_sec = 3600;
  mem_total_kb = 1000;
  mem_available_kb = 250;
}

abbrev alerts : Alerts
alerts = record {
  log =
      entry 7 gateway_unreachable critical [] (codes "Gateway unreachable")
      ∷ replicate 63 blank_entry;
  count = 1;
  head = 1;
  active_count = 1;
  hyst = replicate 8 no_counts;
  ignore = [];
}

abbrev blank : SatData ℤ
blank = record {
  timestamp = 0;
  uptime_sec = 0;
  mem_used_pct = 0;
  ifaces = [];
  gw_up = false;
  dns_up = false;
  dns_resolves = false;
  wan_up = false;
  gw_latency_ms = pos 0;
  dns_latency_ms = pos 0;
  wan_latency_ms = pos 0;
  wan_jitter_ms = pos 0;
  wan_loss_pct = 0;
  active_alerts = 0;
  max_severity = 0;
  total_rx_rate = 0;
  total_tx_rate = 0;
  max_link_bps = 100000000;
  rx_history = replicate history_len 0;
  tx_history = replicate history_len 0;
  history_head = 0;
  history_count = 0;
  connected = false;
  last_rx_time = 0;
  last_seq = 0;
  rx_frames = 0;
}

abbrev waiting : Receiver ℤ
waiting = record {
  frame_buf = replicate max_frame_size 0;
  frame_pos = 0;
  state = sync;
  head = record { magic = 0; version = 0; msg_type = 0; payload_len = 0; sequence = 0 };
  model = blank;
}

abbrev server : Server ℤ
server = record {
  hostname = codes "netmon";
  net = state;
  alerts = alerts;
  wan = no_wan;
  cfg = [];
  config_file = none;
}

abbrev request : Request
request = record { method = codes "POST"; uri = codes "/api/v1/config"; body = small_body }

state-api_routes_handle_example : (api_routes_handle {J = Doc} str_eq send_404 server request).1 ≡ (
    if str_eq (codes "POST") (codes "POST")
      && str_eq (codes "/api/v1/config") (codes "/api/v1/config")
    then (handle_post_config {J = Doc} server small_body).1
    else server)
state-api_routes_handle_example =
    state-api_routes_handle ℤ doc-IsParser str_eq send_404 server request (λ text pattern h. refl)

connectivity_displayed_run :
    let shown = update_snapshot waiting.model (shown_state state alerts no_wan 1700000000) in
    (shown.gw_up ≡ true)
    × (shown.dns_up ≡ true)
    × (shown.dns_resolves ≡ false)
    × (shown.wan_up ≡ false)
connectivity_displayed_run = connectivity_displayed waiting.model state alerts no_wan 1700000000
