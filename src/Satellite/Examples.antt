-- ===== src/Satellite/Examples.antt =====
-- Runs and instances of the satellite's protocol, encoder and receiver.
use embedded_network_monitor.Prelude.{
  ℕ, ◌+◌, ◌*◌, ◌%◌, ◌^◌, ◌≤◌, ◌<◌, ◌≡◌, refl, ◌↔◌, true, false, Option, none, some, List, [], ◌∷◌,
  ◌++◌, arith, ◌==◌, if◌then◌else◌, Bytes, codes, str_eq, length, take, drop, replicate,
  length-replicate,
}
use embedded_network_monitor.Prelude.Floating.{nat_floating}
use embedded_network_monitor.Prelude.Window.{last}
use embedded_network_monitor.Satellite.Protocol.{
  IfaceData, Snapshot, max_frame_size, msg_snapshot, put_snapshot, get_snapshot, crc16, crc_from,
  crc_bits, crc_bit, put_ifaces, put_iface,
}
use embedded_network_monitor.Satellite.Encoder.{build_frame, frame_bytes, frame_body, frame_header}
use embedded_network_monitor.Satellite.Data.{
  SatData, history_len, connection_timeout_ms, read_ifaces, mark_alive, check_connection,
  update_snapshot,
}
use embedded_network_monitor.Satellite.Receiver.{sync, crc, Receiver, dispatch, feed}
use embedded_network_monitor.Satellite.Wire.{IsSnapshot, get_snapshot-put_snapshot}
use embedded_network_monitor.Satellite.Bounds.{IsRx, AtRest, feed-IsRx, rest_again}
use embedded_network_monitor.Satellite.Steps.{at}
use embedded_network_monitor.Satellite.Delivery.{model-feed_frame, snapshot_delivered}
use embedded_network_monitor.Satellite.Display.{
  sum_rx, sum_tx, fastest, IsHistory, rx_rates, tx_rates, update_snapshot_totals, fast_link_wraps,
  update_snapshot-IsHistory, connected_iff,
}
use embedded_network_monitor.Satellite.Json.{Json, item, holds, status_snapshot, json_to_frame}
use embedded_network_monitor.Satellite.Feeder.{
  Round, no_reply, bad_json, status, max_failures, gives_up,
}
use embedded_network_monitor.Satellite.Feeding.{
  bad_rounds, framed_rounds, after, gives_up_iff, seq-after,
}
use embedded_network_monitor.Satellite.EndToEnd.{status_displayed, flags_displayed}

abbrev eth0 : ℕ → IfaceData
eth0 speed = record {
  name = codes "eth0" ++ replicate 4 0;
  flags = 3;
  error_rate = 0;
  rx_rate = 70000;
  tx_rate = 1200;
  link_speed = speed;
  signal_dbm = 0;
  reserved = 0;
}

abbrev snap_of : ℕ → Snapshot
snap_of speed = record {
  timestamp = 1700000000;
  uptime_sec = 86400;
  mem_used_pct = 42;
  num_ifaces = 1;
  conn_flags = 15;
  active_alerts = 0;
  max_severity = 0;
  wan_loss_pct = 0;
  gw_latency = 12;
  dns_latency = 151;
  wan_latency = 223;
  wan_jitter = 8;
  ifaces = eth0 speed ∷ [];
}

snap-IsSnapshot : IsSnapshot (snap_of 1000)
snap-IsSnapshot = record {
  time_fits = omega arith;
  uptime_fits = omega arith;
  gw_fits = omega arith;
  dns_fits = omega arith;
  wan_fits = omega arith;
  jitter_fits = omega arith;
  counted = refl;
  ifaces_fit = (
    record {
      name_size = refl;
      rx_fits = omega arith;
      tx_fits = omega arith;
      speed_fits = omega arith;
    },
    tt,
  );
}

abbrev blank : SatData ℕ
blank = record {
  timestamp = 0;
  uptime_sec = 0;
  mem_used_pct = 0;
  ifaces = [];
  gw_up = false;
  dns_up = false;
  dns_resolves = false;
  wan_up = false;
  gw_latency_ms = 0;
  dns_latency_ms = 0;
  wan_latency_ms = 0;
  wan_jitter_ms = 0;
  wan_loss_pct = 0;
  active_alerts = 0;
  max_severity = 0;
  total_rx_rate = 0;
  total_tx_rate = 0;
  max_link_bps = 100000000;
  rx_history = replicate history_len 0;
  tx_history = replicate history_len 0;
  history_head = 0;
  history_count = 0;
  connected = false;
  last_rx_time = 0;
  last_seq = 0;
  rx_frames = 0;
}

blank-IsHistory : IsHistory blank
blank-IsHistory = (refl, refl, omega arith, omega arith)

abbrev waiting : Receiver ℕ
waiting = record {
  frame_buf = replicate max_frame_size 0;
  frame_pos = 0;
  state = sync;
  head = record { magic = 0; version = 0; msg_type = 0; payload_len = 0; sequence = 0 };
  model = blank;
}

waiting-AtRest : AtRest waiting
waiting-AtRest = (refl, refl)

waiting-IsRx : IsRx waiting
waiting-IsRx = record { buf_size = refl; place = omega arith }

-- The check value of CRC-16/CCITT-FALSE for the nine digits.
crc_check_value : crc16 (codes "123456789") ≡ 0x29B1
unfolding crc16 crc_from crc_bits crc_bit
crc_check_value = refl

get_snapshot-put_snapshot_run :
    get_snapshot 1 (put_snapshot (snap_of 1000) ++ 7 ∷ []) ≡ snap_of 1000
get_snapshot-put_snapshot_run = get_snapshot-put_snapshot (snap_of 1000) (7 ∷ []) snap-IsSnapshot

abbrev noise : Bytes
noise = 0x4D ∷ 0x4E ∷ 1 ∷ 1 ∷ 255 ∷ 255 ∷ 0 ∷ 0 ∷ 9 ∷ []

feed-IsRx_example :
    IsRx (feed waiting 5 noise)
    × ((feed waiting 5 noise).frame_pos < length (feed waiting 5 noise).frame_buf)
feed-IsRx_example = feed-IsRx noise waiting 5 waiting-IsRx

rest_again_example :
    (k : ℕ) × (k ≤ max_frame_size)
    × AtRest (feed waiting 5 (take k (replicate max_frame_size 0x4D)))
rest_again_example =
    rest_again waiting 5 (replicate max_frame_size 0x4D) waiting-IsRx
      (omega (arith, length-replicate {A = ℕ} max_frame_size 0x4D))

abbrev clock : Bytes
clock = 1 ∷ 2 ∷ 3 ∷ 4 ∷ []

model-feed_frame_run :
    let body = frame_body 2 clock 9 in
    let t = feed waiting 5 (body ++ 1 ∷ 2 ∷ []) in
    AtRest t
    × (t.model ≡ (
        if 1 + 2 * 256 == crc16 body
        then dispatch
            (at waiting
              (body ++ 1 ∷ 2 ∷ drop (length body + 2) waiting.frame_buf)
              (length body + 2)
              crc
              (frame_header 2 4 9))
            (mark_alive blank 5 9)
        else blank))
model-feed_frame_run =
    model-feed_frame waiting 5 2 clock 9 1 2 waiting-AtRest waiting-IsRx (omega arith) (omega arith)

abbrev sent : Bytes
sent = frame_bytes msg_snapshot (put_snapshot (snap_of 1000)) 9

sent-built : (build_frame msg_snapshot (put_snapshot (snap_of 1000)) max_frame_size 9).0 ≡ some sent
unfolding build_frame put_snapshot put_ifaces put_iface
sent-built = refl

snapshot_delivered_example :
    AtRest (feed waiting 5 sent)
    × ((feed waiting 5 sent).model ≡ update_snapshot (mark_alive blank 5 9) (snap_of 1000))
snapshot_delivered_example =
    snapshot_delivered waiting 5 (snap_of 1000) max_frame_size 9 sent waiting-AtRest waiting-IsRx
      snap-IsSnapshot (omega arith) (omega arith) sent-built

update_snapshot_totals_run :
    let t = update_snapshot blank (snap_of 1000) in
    (t.total_rx_rate ≡ sum_rx (read_ifaces (snap_of 1000)) % 2 ^ 32)
    × (t.total_tx_rate ≡ sum_tx (read_ifaces (snap_of 1000)) % 2 ^ 32)
    × (t.max_link_bps ≡ (
        if fastest (read_ifaces (snap_of 1000)) == 0
        then 100000000
        else fastest (read_ifaces (snap_of 1000))))
update_snapshot_totals_run = update_snapshot_totals blank (snap_of 1000) (omega arith, tt)

fast_link_wraps_example :
    (update_snapshot blank (snap_of 10000)).max_link_bps < fastest (read_ifaces (snap_of 10000))
fast_link_wraps_example =
    fast_link_wraps blank (snap_of 10000) (eth0 10000) refl (omega arith) (omega arith)

update_snapshot-IsHistory_example :
    let t = update_snapshot blank (snap_of 1000) in
    (rx_rates t ≡ last history_len (rx_rates blank ++ t.total_rx_rate ∷ []))
    × (tx_rates t ≡ last history_len (tx_rates blank ++ t.total_tx_rate ∷ []))
    × IsHistory t
update_snapshot-IsHistory_example = update_snapshot-IsHistory blank (snap_of 1000) blank-IsHistory

connected_iff_run :
    let t = check_connection (mark_alive blank 4294967000 9) ((4294967000 + 4000) % 2 ^ 32) in
    (t.connected ≡ true) ↔ (4000 ≤ connection_timeout_ms)
connected_iff_run = connected_iff blank 4294967000 4000 9 (omega arith) (omega arith)

-- the JSON of a status with a gateway, its latency and one interface
data Node : Type 0 where
  root conn gateway latency ifaces eth name : Node

node_get : Node → Bytes → Option Node
node_get root k =
    if str_eq k (codes "connectivity")
    then some conn
    else if str_eq k (codes "interfaces")
    then some ifaces
    else none
node_get conn k =
    if str_eq k (codes "gateway_reachable")
    then some gateway
    else if str_eq k (codes "gateway_latency_ms")
    then some latency
    else none
node_get eth k = if str_eq k (codes "name") then some name else none
node_get other k = none

node_items : Node → List Node
node_items ifaces = eth ∷ []
node_items other = []

instance abbrev node_json : Json Node
node_json = record {
  get = node_get;
  items = node_items;
  is_true = λ n. elim n [ gateway ↦ true | _ ↦ false ];
  is_null = λ n. false;
  whole = λ w n. 1;
  tenths = λ n. 12;
  signed_byte = λ n. 196;
  text = λ n. some (codes "eth0");
}

status_displayed_example :
    (frame : Bytes) × ((json_to_frame root 1700000000 max_frame_size 9).0 ≡ some frame)
    × AtRest (feed waiting 5 frame)
    × ((feed waiting 5 frame).model
        ≡ update_snapshot (mark_alive blank 5 9) (status_snapshot root 1700000000))
status_displayed_example =
    status_displayed root waiting 1700000000 5 9 waiting-AtRest waiting-IsRx (omega arith)

flags_displayed_run :
    let shown = update_snapshot blank (status_snapshot root 1700000000) in
    (shown.gw_up ≡ holds (item (some conn) (codes "gateway_reachable")))
    × (shown.dns_up ≡ holds (item (some conn) (codes "dns_reachable")))
    × (shown.dns_resolves ≡ holds (item (some conn) (codes "dns_resolves")))
    × (shown.wan_up ≡ holds (item {J = Node} none (codes "wan_reachable")))
unfolding node_get str_eq
flags_displayed_run = flags_displayed blank root 1700000000

-- A status, a reply that is no JSON, and then no reply, latest first.
abbrev rounds : List (ℕ × Round Node)
rounds = (3, no_reply) ∷ (2, bad_json) ∷ (1, status root true) ∷ []

gives_up_iff_example : (gives_up (after rounds) ≡ true) ↔ (max_failures ≤ bad_rounds rounds)
gives_up_iff_example = gives_up_iff rounds

seq-after_example : (after rounds).seq ≡ framed_rounds rounds % 2 ^ 16
seq-after_example = seq-after rounds
