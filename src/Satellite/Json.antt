-- ===== src/Satellite/Json.antt =====
-- `encoder_json_to_frame` of satellite/host/src/sat_encoder.c. cJSON is a library: what the encoder
-- calls of it is the record `Json`.
use embedded_network_monitor.Prelude.{
  ℕ, ◌+◌, ◌-◌, ◌*◌, ◌/◌, ◌%◌, ◌^◌, min, Bool, false, ◌&&◌, Option, none, some, List, [], ◌∷◌, ◌++◌,
  ltb, ◌==◌, if◌then◌else◌, Bytes, codes, length, take, replicate,
}
use Prim.Native.Nat.{bit_or}
use embedded_network_monitor.Satellite.Protocol.{
  IfaceData, Snapshot, max_interfaces, iface_name_len, msg_snapshot, put_snapshot,
}
use embedded_network_monitor.Satellite.Encoder.{build_frame}

-- `get` is `cJSON_GetObjectItem`, `items` the children that `cJSON_ArrayForEach` visits and
-- `cJSON_GetArraySize` counts, `text` the field `valuestring`; of the field `valuedouble`, `whole w`
-- is the cast to an unsigned type of `w` bits, `tenths` that of `valuedouble * 10.0` to 16 bits and
-- `signed_byte` the byte of the cast to `int8_t`. Out of the range of the type, where C leaves a cast
-- undefined, each is whatever the machine gives; that it has the bits of the type is all that the
-- remainders below say. The calls take NULL, as cJSON does: no item, no children.
pub record Json (J : Type 0) : Type 0 where
  pub get : J → Bytes → Option J
  pub items : J → List J
  pub is_true : J → Bool
  pub is_null : J → Bool
  pub whole : ℕ → J → ℕ
  pub tenths : J → ℕ
  pub signed_byte : J → ℕ
  pub text : J → Option Bytes

-- `strncpy` of 7 bytes into 8 that are zero
unfoldable pub name_field : Option Bytes → Bytes
name_field none = replicate iface_name_len 0
name_field (some s) =
    let cut = take (iface_name_len - 1) s in cut ++ replicate (iface_name_len - length cut) 0

unfoldable pub or_if : Bool → ℕ → ℕ → ℕ
or_if b mask flags = if b then bit_or flags mask else flags

module _ {J : Type 0} ⦃j : Json J⦄ where
  unfoldable pub item : Option J → Bytes → Option J
  item none key = none
  item (some o) key = j.get o key

  unfoldable pub children : Option J → List J
  children none = []
  children (some o) = j.items o

  -- `(uintW_t) j->valuedouble`, and the old value where the item is missing
  unfoldable pub number_or : ℕ → Option J → ℕ → ℕ
  number_or width none old = old
  number_or width (some o) old = j.whole width o % 2 ^ width

  -- `(uint16_t) (j->valuedouble * 10.0)`
  unfoldable pub tenths_or : Option J → ℕ → ℕ
  tenths_or none old = old
  tenths_or (some o) old = j.tenths o % 2 ^ 16

  -- `j && cJSON_IsTrue (j)`
  unfoldable pub holds : Option J → Bool
  holds none = false
  holds (some o) = j.is_true o

  -- 100 - used, in `uint32_t`, cast to `uint8_t`
  unfoldable pub mem_used : Option J → ℕ
  unfolding number_or item
  mem_used none = 0
  mem_used (some info) =
      let total = number_or 32 (item (some info) (codes "mem_total_kb")) 1 in
      let avail = number_or 32 (item (some info) (codes "mem_available_kb")) 0 in
      if total == 0 then 0 else (100 + 2 ^ 32 - avail * 100 % 2 ^ 32 / total) % 256

  unfoldable pub conn_flags : Option J → Option J → ℕ
  unfolding holds item or_if
  conn_flags conn wan = or_if (holds (item wan (codes "wan_reachable"))) 8 (
      or_if (holds (item conn (codes "dns_resolves"))) 4 (
        or_if (holds (item conn (codes "dns_reachable"))) 2
          (or_if (holds (item conn (codes "gateway_reachable"))) 1 0)))

  -- the loop over the alert entries, with the maximum so far
  unfoldable pub max_severity_from : ℕ → List J → ℕ
  unfolding holds number_or item
  max_severity_from top [] = top
  max_severity_from top (entry ∷ entries) =
      let sev = number_or 8 (item (some entry) (codes "severity")) 0 in
      max_severity_from
        (if holds (item (some entry) (codes "active")) && ltb top sev then sev else top) entries

  unfoldable pub text_of : Option J → Option Bytes
  text_of none = none
  text_of (some o) = j.text o

  -- `(int8_t) j->valuedouble`, as a byte
  unfoldable pub signed_byte_or : Option J → ℕ
  signed_byte_or none = 0
  signed_byte_or (some o) = j.signed_byte o % 2 ^ 8

  -- for a WiFi object that is there and not null
  unfoldable pub signal : Option J → ℕ
  unfolding signed_byte_or item
  signal none = 0
  signal (some wifi) =
      if j.is_null wifi then 0 else signed_byte_or (item (some wifi) (codes "signal_dbm"))

  unfoldable pub iface_data : J → IfaceData
  unfolding name_field text_of or_if holds number_or signal item
  iface_data iface =
      let rates = item (some iface) (codes "rates") in
      record {
        name = name_field (text_of (item (some iface) (codes "name")));
        flags = or_if (holds (item (some iface) (codes "wireless"))) 4 (
            or_if (holds (item (some iface) (codes "running"))) 2
              (or_if (holds (item (some iface) (codes "up"))) 1 0));
        error_rate = 0;
        rx_rate = number_or 32 (item rates (codes "rx_bps")) 0;
        tx_rate = number_or 32 (item rates (codes "tx_bps")) 0;
        link_speed = number_or 16 (item (some iface) (codes "speed_mbps")) 0;
        signal_dbm = signal (item (some iface) (codes "wifi"));
        reserved = 0;
      }

  unfoldable pub ifaces_data : List J → List IfaceData
  unfolding iface_data
  ifaces_data [] = []
  ifaces_data (i ∷ is) = iface_data i ∷ ifaces_data is

  -- the payload, at the wall clock `now`
  unfoldable pub status_snapshot : J → ℕ → Snapshot
  unfolding mem_used conn_flags tenths_or max_severity_from ifaces_data children item number_or
  status_snapshot root now =
      let info = j.get root (codes "info") in
      let arr = children (j.get root (codes "interfaces")) in
      let conn = j.get root (codes "connectivity") in
      let alerts = j.get root (codes "alerts") in
      let wan = j.get root (codes "wan") in
      record {
        timestamp = now % 2 ^ 32;
        uptime_sec = number_or 32 (item info (codes "uptime_sec")) 0;
        mem_used_pct = mem_used info;
        num_ifaces = min (length arr) max_interfaces;
        conn_flags = conn_flags conn wan;
        active_alerts = number_or 8 (item alerts (codes "active_count")) 0;
        max_severity = max_severity_from 0 (children (item alerts (codes "entries")));
        wan_loss_pct = number_or 8 (item wan (codes "wan_packet_loss_pct")) 0;
        gw_latency = tenths_or (item conn (codes "gateway_latency_ms")) 0;
        dns_latency = tenths_or (item conn (codes "dns_latency_ms")) 0;
        wan_latency = tenths_or (item wan (codes "wan_latency_ms")) 0;
        wan_jitter = tenths_or (item wan (codes "wan_jitter_ms")) 0;
        ifaces = ifaces_data (take max_interfaces arr);
      }

  unfoldable pub json_to_frame : J → ℕ → ℕ → ℕ → Option Bytes × ℕ
  unfolding status_snapshot
  json_to_frame root now buf_size seq =
      build_frame msg_snapshot (put_snapshot (status_snapshot root now)) buf_size seq
