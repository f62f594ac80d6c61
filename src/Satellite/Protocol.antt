-- ===== src/Satellite/Protocol.antt =====
-- satellite/protocol/sat_protocol.h: the packed structures as bytes, and the CRC. A field is a number;
-- a field of type `int8_t` is its bit pattern. Multi-byte fields are little-endian.
use Prim.Native.Nat.{bit_and, bit_xor}
use embedded_network_monitor.Prelude.{
  ℕ, zero, suc, ◌+◌, ◌*◌, ◌/◌, ◌%◌, ◌^◌, List, [], ◌∷◌, ◌++◌, Bytes, ◌==◌, if◌then◌else◌, get_or,
  take, drop,
}

abbrev pub proto_magic : ℕ
proto_magic = 0x4E4D

abbrev pub proto_version : ℕ
proto_version = 1

abbrev pub max_interfaces : ℕ
max_interfaces = 8

abbrev pub iface_name_len : ℕ
iface_name_len = 8

abbrev pub max_frame_size : ℕ
max_frame_size = 256

-- `sat_msg_type_t`
abbrev pub msg_snapshot : ℕ
msg_snapshot = 0x01

abbrev pub msg_heartbeat : ℕ
msg_heartbeat = 0x02

-- `sat_header_t`
pub record Header : Type 0 where
  pub magic : ℕ
  pub version : ℕ
  pub msg_type : ℕ
  pub payload_len : ℕ
  pub sequence : ℕ

-- `sat_iface_data_t`; `name` is 8 bytes
pub record IfaceData : Type 0 where
  pub name : Bytes
  pub flags : ℕ
  pub error_rate : ℕ
  pub rx_rate : ℕ
  pub tx_rate : ℕ
  pub link_speed : ℕ
  pub signal_dbm : ℕ
  pub reserved : ℕ

-- `sat_snapshot_t`
pub record Snapshot : Type 0 where
  pub timestamp : ℕ
  pub uptime_sec : ℕ
  pub mem_used_pct : ℕ
  pub num_ifaces : ℕ
  pub conn_flags : ℕ
  pub active_alerts : ℕ
  pub max_severity : ℕ
  pub wan_loss_pct : ℕ
  pub gw_latency : ℕ
  pub dns_latency : ℕ
  pub wan_latency : ℕ
  pub wan_jitter : ℕ
  pub ifaces : List IfaceData

abbrev pub header_size : ℕ
header_size = 8

abbrev pub snapshot_size : ℕ
snapshot_size = 22

abbrev pub iface_size : ℕ
iface_size = 22

-- byte `k` of a number
abbrev pub byte0 : ℕ → ℕ
byte0 n = n % 256

abbrev pub byte1 : ℕ → ℕ
byte1 n = n / 256 % 256

abbrev pub byte2 : ℕ → ℕ
byte2 n = n / 65536 % 256

abbrev pub byte3 : ℕ → ℕ
byte3 n = n / 16777216 % 256

-- the fields that begin at byte `i`
abbrev pub u8_at : Bytes → ℕ → ℕ
u8_at bs i = get_or bs i 0

abbrev pub u16_at : Bytes → ℕ → ℕ
u16_at bs i = get_or bs i 0 + get_or bs (suc i) 0 * 256

abbrev pub u32_at : Bytes → ℕ → ℕ
u32_at bs i =
    get_or bs i 0
    + get_or bs (suc i) 0 * 256
    + get_or bs (suc (suc i)) 0 * 65536
    + get_or bs (suc (suc (suc i))) 0 * 16777216

abbrev pub put_header : Header → Bytes
put_header h =
    byte0 h.magic
    ∷ byte1 h.magic
    ∷ h.version
    ∷ h.msg_type
    ∷ byte0 h.payload_len
    ∷ byte1 h.payload_len
    ∷ byte0 h.sequence
    ∷ byte1 h.sequence
    ∷ []

abbrev pub get_header : Bytes → Header
get_header bs = record {
  magic = u16_at bs 0;
  version = u8_at bs 2;
  msg_type = u8_at bs 3;
  payload_len = u16_at bs 4;
  sequence = u16_at bs 6;
}

-- behind the name
abbrev pub put_iface_fields : IfaceData → Bytes
put_iface_fields d =
    d.flags
    ∷ d.error_rate
    ∷ byte0 d.rx_rate
    ∷ byte1 d.rx_rate
    ∷ byte2 d.rx_rate
    ∷ byte3 d.rx_rate
    ∷ byte0 d.tx_rate
    ∷ byte1 d.tx_rate
    ∷ byte2 d.tx_rate
    ∷ byte3 d.tx_rate
    ∷ byte0 d.link_speed
    ∷ byte1 d.link_speed
    ∷ d.signal_dbm
    ∷ d.reserved
    ∷ []

unfoldable pub put_iface : IfaceData → Bytes
put_iface d = d.name ++ put_iface_fields d

unfoldable pub put_ifaces : List IfaceData → Bytes
unfolding put_iface
put_ifaces [] = []
put_ifaces (d ∷ ds) = put_iface d ++ put_ifaces ds

abbrev pub get_iface_fields : Bytes → Bytes → IfaceData
get_iface_fields name bs = record {
  name = name;
  flags = u8_at bs 0;
  error_rate = u8_at bs 1;
  rx_rate = u32_at bs 2;
  tx_rate = u32_at bs 6;
  link_speed = u16_at bs 10;
  signal_dbm = u8_at bs 12;
  reserved = u8_at bs 13;
}

unfoldable pub get_iface : Bytes → IfaceData
get_iface bs = get_iface_fields (take iface_name_len bs) (drop iface_name_len bs)

-- `snap->ifaces[0 .. n)`
unfoldable pub get_ifaces : ℕ → Bytes → List IfaceData
unfolding get_iface
get_ifaces zero bs = []
get_ifaces (suc n) bs = get_iface bs ∷ get_ifaces n (drop iface_size bs)

-- the fixed part of a snapshot
abbrev pub put_fields : Snapshot → Bytes
put_fields s =
    byte0 s.timestamp
    ∷ byte1 s.timestamp
    ∷ byte2 s.timestamp
    ∷ byte3 s.timestamp
    ∷ byte0 s.uptime_sec
    ∷ byte1 s.uptime_sec
    ∷ byte2 s.uptime_sec
    ∷ byte3 s.uptime_sec
    ∷ s.mem_used_pct
    ∷ s.num_ifaces
    ∷ s.conn_flags
    ∷ s.active_alerts
    ∷ s.max_severity
    ∷ s.wan_loss_pct
    ∷ byte0 s.gw_latency
    ∷ byte1 s.gw_latency
    ∷ byte0 s.dns_latency
    ∷ byte1 s.dns_latency
    ∷ byte0 s.wan_latency
    ∷ byte1 s.wan_latency
    ∷ byte0 s.wan_jitter
    ∷ byte1 s.wan_jitter
    ∷ []

unfoldable pub put_snapshot : Snapshot → Bytes
unfolding put_ifaces
put_snapshot s = put_fields s ++ put_ifaces s.ifaces

-- A snapshot as it lies in memory, with its first `n` interfaces.
unfoldable pub get_snapshot : ℕ → Bytes → Snapshot
unfolding get_ifaces
get_snapshot n bs = record {
  timestamp = u32_at bs 0;
  uptime_sec = u32_at bs 4;
  mem_used_pct = u8_at bs 8;
  num_ifaces = u8_at bs 9;
  conn_flags = u8_at bs 10;
  active_alerts = u8_at bs 11;
  max_severity = u8_at bs 12;
  wan_loss_pct = u8_at bs 13;
  gw_latency = u16_at bs 14;
  dns_latency = u16_at bs 16;
  wan_latency = u16_at bs 18;
  wan_jitter = u16_at bs 20;
  ifaces = get_ifaces n (drop snapshot_size bs);
}

-- one round of the inner loop of `sat_crc16`, in 16 bits
unfoldable pub crc_bit : ℕ → ℕ
crc_bit crc =
    if bit_and crc 0x8000 == 0 then crc * 2 % 2 ^ 16 else bit_xor (crc * 2) 0x1021 % 2 ^ 16

unfoldable pub crc_bits : ℕ → ℕ → ℕ
unfolding crc_bit
crc_bits zero crc = crc
crc_bits (suc n) crc = crc_bits n (crc_bit crc)

-- the outer loop
unfoldable pub crc_from : ℕ → Bytes → ℕ
unfolding crc_bits
crc_from crc [] = crc
crc_from crc (b ∷ bs) = crc_from (crc_bits 8 (bit_xor crc (b * 256) % 2 ^ 16)) bs

unfoldable pub crc16 : Bytes → ℕ
unfolding crc_from
crc16 bs = crc_from 0xFFFF bs
