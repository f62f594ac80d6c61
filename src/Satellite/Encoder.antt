-- ===== src/Satellite/Encoder.antt =====
-- `build_frame` of satellite/host/src/sat_encoder.c.
use embedded_network_monitor.Prelude.{
  ℕ, ◌+◌, ◌%◌, ◌^◌, Option, none, some, [], ◌∷◌, ◌++◌, Bytes, ltb, if◌then◌else◌, length,
}
use embedded_network_monitor.Satellite.Protocol.{
  proto_magic, proto_version, msg_heartbeat, Header, header_size, byte0, byte1, byte2, byte3,
  put_header, crc16,
}

abbrev pub frame_header : ℕ → ℕ → ℕ → Header
frame_header msg_type payload_len seq = record {
  magic = proto_magic;
  version = proto_version;
  msg_type = msg_type;
  payload_len = payload_len;
  sequence = seq;
}

-- the bytes that the CRC is over
abbrev pub frame_body : ℕ → Bytes → ℕ → Bytes
frame_body msg_type payload seq = put_header (frame_header msg_type (length payload) seq) ++ payload

abbrev pub frame_bytes : ℕ → Bytes → ℕ → Bytes
frame_bytes msg_type payload seq =
    let body = frame_body msg_type payload seq in
    body ++ byte0 (crc16 body) ∷ byte1 (crc16 body) ∷ []

-- The frame, or `none` for -1, and the sequence number for the next frame, a `uint16_t`. The payload
-- is given with its length.
unfoldable pub build_frame : ℕ → Bytes → ℕ → ℕ → Option Bytes × ℕ
build_frame msg_type payload buf_size seq =
    if ltb buf_size (header_size + length payload + 2)
    then (none, seq)
    else (some (frame_bytes msg_type payload seq), (seq + 1) % 2 ^ 16)

-- `encoder_heartbeat_frame`, at the wall clock `now`
unfoldable pub heartbeat_frame : ℕ → ℕ → ℕ → Option Bytes × ℕ
unfolding build_frame
heartbeat_frame now buf_size seq =
    build_frame msg_heartbeat (byte0 now ∷ byte1 now ∷ byte2 now ∷ byte3 now ∷ []) buf_size seq
