-- ===== src/Satellite/Bounds.antt =====
-- The receiver's frame buffer is never overrun, and the receiver always comes back to where a frame can
-- begin.
use embedded_network_monitor.Prelude.{
  ℕ, zero, suc, ◌+◌, ◌-◌, ◌≤◌, ◌<◌, ◌≡◌, refl, ◌⊎◌, inl, inr, [], ◌∷◌, arith, Bytes, length, take,
  length-set,
}
use embedded_network_monitor.Prelude.Floating.{Floating}
use embedded_network_monitor.Satellite.Protocol.{header_size, max_frame_size}
use embedded_network_monitor.Satellite.Receiver.{
  RxState, sync, header, payload, crc, Receiver, feed_sync, accept_header, feed_header,
  feed_payload, feed_crc, feed_in, feed_byte, feed,
}

abbrev max_payload : ℕ
max_payload = max_frame_size - header_size - 2

-- where `s_frame_pos` stands in each state, for a payload of `len` bytes
abbrev pub InState : RxState → ℕ → ℕ → Type 0
InState sync pos len = pos ≤ 1
InState header pos len = (2 ≤ pos) × (pos < header_size)
InState payload pos len = (header_size ≤ pos) × (pos < header_size + len) × (len ≤ max_payload)
InState crc pos len =
    (header_size + len ≤ pos) × (pos < header_size + len + 2) × (len ≤ max_payload)

pub record IsRx {D : Type 0} (r : Receiver D) : Type 0 where
  pub buf_size : length r.frame_buf ≡ max_frame_size
  pub place : InState r.state r.frame_pos r.head.payload_len

-- waiting for the first byte of a frame
abbrev pub AtRest : {D : Type 0} → Receiver D → Type 0
AtRest r = (r.state ≡ sync) × (r.frame_pos ≡ 0)

pos-lt : (st : RxState) (pos len : ℕ) → InState st pos len → pos < max_frame_size
pos-lt sync pos len h = omega arith
pos-lt header pos len h = omega arith
pos-lt payload pos len h = omega arith
pos-lt crc pos len h = omega arith

module _ {D : Type 0} ⦃f : Floating D⦄ where
  -- After a byte the receiver is in order, and is at rest or one byte further on.
  record Fed (r t : Receiver D) : Type 0 where
    ordered : IsRx t
    progress : AtRest t ⊎ (t.frame_pos ≡ r.frame_pos + 1)

  feed_in-Fed :
      (st : RxState) (r : Receiver D) (now b : ℕ)
      → length r.frame_buf ≡ max_frame_size
      → r.state ≡ st
      → InState st r.frame_pos r.head.payload_len
      → Fed r (feed_in st r now b)
  unfolding feed_in feed_sync feed_header accept_header feed_payload feed_crc
  feed_in-Fed sync r now b n e h =
      ground (arith, length-set r.frame_buf 0 b, length-set r.frame_buf 1 b)
  feed_in-Fed header r now b n e h = ground (arith, length-set r.frame_buf r.frame_pos b)
  feed_in-Fed payload r now b n e h = ground (arith, length-set r.frame_buf r.frame_pos b)
  feed_in-Fed crc r now b n e h = ground (arith, length-set r.frame_buf r.frame_pos b)

  feed_byte-Fed : (r : Receiver D) (now b : ℕ) → IsRx r → Fed r (feed_byte r now b)
  unfolding feed_byte
  feed_byte-Fed r now b v = feed_in-Fed r.state r now b v.buf_size refl v.place

  -- Whatever bytes come in, the state of the decoder stays in order, and the index at which it stores
  -- its next byte lies inside the frame buffer.
  pub feed-IsRx :
      (bs : Bytes) (r : Receiver D) (now : ℕ)
      → IsRx r
      → IsRx (feed r now bs) × ((feed r now bs).frame_pos < length (feed r now bs).frame_buf)
  unfolding feed
  feed-IsRx [] r now v =
      (v, omega (arith, pos-lt r.state r.frame_pos r.head.payload_len v.place, v.buf_size))
  feed-IsRx (b ∷ bs) r now v =
      feed-IsRx bs (feed_byte r now b) now (feed_byte-Fed r now b v).ordered

  rest_within :
      (fuel : ℕ) (r : Receiver D) (now : ℕ) (bs : Bytes)
      → IsRx r
      → max_frame_size ≤ r.frame_pos + fuel
      → fuel ≤ length bs
      → (k : ℕ) × (k ≤ fuel) × AtRest (feed r now (take k bs))
  unfolding feed
  rest_within zero r now bs v h l =
      absurd (omega (arith, pos-lt r.state r.frame_pos r.head.payload_len v.place))
  rest_within (suc fuel) r now [] v h l = absurd (omega arith)
  rest_within (suc fuel) r now (b ∷ bs) v h l =
      let t = feed_byte-Fed r now b v in
      elim t.progress [
        | inl rest ↦ (1, omega arith, rest)
        | inr more ↦
            let (k, le, rest) =
              rest_within fuel (feed_byte r now b) now bs t.ordered (omega (arith, more))
                (omega arith) in
            (suc k, omega arith, rest)
      ]

  -- From any state the decoder is again waiting for the start of a frame after at most 256 bytes,
  -- whatever they are.
  pub rest_again :
      (r : Receiver D) (now : ℕ) (bs : Bytes)
      → IsRx r
      → max_frame_size ≤ length bs
      → (k : ℕ) × (k ≤ max_frame_size) × AtRest (feed r now (take k bs))
  rest_again r now bs v h = rest_within max_frame_size r now bs v (omega arith) h
