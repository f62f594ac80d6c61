-- ===== src/Satellite/Receiver.antt =====
-- satellite/firmware/main/sat_receiver.c: the frame decoder. `now` is `millis ()`.
use embedded_network_monitor.Prelude.{
  ℕ, ◌+◌, ◌-◌, ◌%◌, ◌^◌, min, not, ◌&&◌, ◌||◌, [], ◌∷◌, ltb, leb, ◌==◌, if◌then◌else◌, Bytes, set,
  take, drop,
}
use embedded_network_monitor.Prelude.Floating.{Floating}
use embedded_network_monitor.Satellite.Protocol.{
  proto_version, max_frame_size, max_interfaces, msg_snapshot, Header, header_size, u8_at, u16_at,
  get_header, get_snapshot, crc16,
}
use embedded_network_monitor.Satellite.Data.{SatData, update_snapshot, mark_alive, check_connection}

-- `rx_state_t`
pub data RxState : Type 0 where
  sync header payload crc : RxState

-- the static variables of sat_receiver.c, and the data model that it updates
pub record Receiver (D : Type 0) : Type 0 where
  pub frame_buf : Bytes
  pub frame_pos : ℕ
  pub state : RxState
  pub head : Header
  pub model : SatData D

module _ {D : Type 0} ⦃f : Floating D⦄ where
  -- The snapshot is read in place, behind the header; its count of interfaces is the sender's.
  unfoldable pub dispatch : Receiver D → SatData D → SatData D
  dispatch r model =
      let payload = drop header_size r.frame_buf in
      if r.head.msg_type == msg_snapshot
      then update_snapshot model (get_snapshot (min (u8_at payload 9) max_interfaces) payload)
      else model

  unfoldable pub process_frame : Receiver D → ℕ → SatData D
  unfolding dispatch
  process_frame r now =
      let expected_len = (header_size + r.head.payload_len) % 2 ^ 16 in
      if u16_at r.frame_buf expected_len == crc16 (take expected_len r.frame_buf)
      then dispatch r (mark_alive r.model now r.head.sequence)
      else r.model

  -- `s_frame_buf[s_frame_pos++] = b`
  abbrev pub store : Receiver D → ℕ → Receiver D
  store r b = record r { frame_buf = set r.frame_buf r.frame_pos b; frame_pos = r.frame_pos + 1 }

  abbrev pub resync : Receiver D → Receiver D
  resync r = record r { state = sync; frame_pos = 0 }

  unfoldable pub feed_sync : Receiver D → ℕ → Receiver D
  feed_sync r b =
      if r.frame_pos == 0 && b == 0x4D
      then record r { frame_buf = set r.frame_buf 0 b; frame_pos = 1 }
      else if r.frame_pos == 1 && b == 0x4E
      then record r { frame_buf = set r.frame_buf 1 b; frame_pos = 2; state = header }
      else record r { frame_pos = 0 }

  -- what a complete header leads to
  unfoldable pub accept_header : Receiver D → Receiver D
  accept_header r =
      if not (r.head.version == proto_version)
        || ltb (max_frame_size - header_size - 2) r.head.payload_len
      then resync r
      else if r.head.payload_len == 0
      then record r { state = crc }
      else record r { state = payload }

  unfoldable pub feed_header : Receiver D → ℕ → Receiver D
  feed_header r b =
      let t = store r b in
      if leb header_size t.frame_pos
      then accept_header (record t { head = get_header t.frame_buf })
      else t

  unfoldable pub feed_payload : Receiver D → ℕ → Receiver D
  feed_payload r b =
      let t = store r b in
      if leb (header_size + r.head.payload_len) t.frame_pos then record t { state = crc } else t

  unfoldable pub feed_crc : Receiver D → ℕ → ℕ → Receiver D
  feed_crc r now b =
      let t = store r b in
      if leb (header_size + r.head.payload_len + 2) t.frame_pos
      then resync (record t { model = process_frame t now })
      else t

  unfoldable pub feed_in : RxState → Receiver D → ℕ → ℕ → Receiver D
  feed_in sync r now b = feed_sync r b
  feed_in header r now b = feed_header r b
  feed_in payload r now b = feed_payload r b
  feed_in crc r now b = feed_crc r now b

  unfoldable pub feed_byte : Receiver D → ℕ → ℕ → Receiver D
  unfolding feed_in
  feed_byte r now b = feed_in r.state r now b

  -- the `for` loop over the bytes of one read
  unfoldable pub feed : Receiver D → ℕ → Bytes → Receiver D
  feed r now [] = r
  feed r now (b ∷ bs) = feed (feed_byte r now b) now bs

  -- one round of `receiver_task`: the bytes that were read, then the connection check
  unfoldable pub receive : Receiver D → ℕ → Bytes → Receiver D
  receive r now bytes =
      let t = feed r now bytes in record t { model = check_connection t.model now }

-- `sat_receiver_init`
unfoldable pub init : {D : Type 0} → Receiver D → Receiver D
init r = record r { state = sync; frame_pos = 0 }
