-- ===== src/Satellite/Delivery.antt =====
-- What the receiver makes of a frame that the encoder built.
use embedded_network_monitor.Prelude.{
  ℕ, zero, suc, ◌+◌, ◌*◌, ◌≤◌, ◌<◌, min, ◌≡◌, refl, ap, ◌∙◌, inl, inr, true, some, [], ◌∷◌, ◌++◌,
  drop-drop, length-drop, arith, ltb, ◌==◌, if◌then◌else◌, Bool-cases, ==_iff, Bytes, length,
  get_or, drop, length-append,
}
use mathlib.Core.Path.{subst}
use embedded_network_monitor.Prelude.Floating.{Floating}
use embedded_network_monitor.Satellite.Protocol.{
  Header, Snapshot, header_size, max_frame_size, max_interfaces, msg_snapshot, byte0, byte1, u8_at,
  put_header, put_snapshot, crc16,
}
use embedded_network_monitor.Satellite.Data.{SatData, mark_alive, update_snapshot}
use embedded_network_monitor.Satellite.Encoder.{frame_header, frame_body, frame_bytes, build_frame}
use embedded_network_monitor.Satellite.Wire.{
  IsU16, IsSnapshot, u16_bytes, crc16-lt, get_snapshot-put_snapshot, length-put_snapshot,
}
use embedded_network_monitor.Satellite.Receiver.{
  sync, payload, crc, Receiver, feed, process_frame, dispatch,
}
use embedded_network_monitor.Satellite.Bounds.{IsRx, AtRest}
use embedded_network_monitor.Satellite.Steps.{
  at, after_header, feed-append, feed-header, feed-payload, feed-crc, process_frame-at,
}

drop-get_or : (k : ℕ) (xs : Bytes) → k < length xs → drop k xs ≡ get_or xs k 0 ∷ drop (suc k) xs
drop-get_or k [] h = absurd (omega arith)
drop-get_or zero (x ∷ xs) h = refl
drop-get_or (suc k) (x ∷ xs) h = drop-get_or k xs (omega arith)

split_eight :
    (xs : Bytes)
    → 8 ≤ length xs
    → xs
      ≡ get_or xs 0 0
        ∷ get_or xs 1 0
        ∷ get_or xs 2 0
        ∷ get_or xs 3 0
        ∷ get_or xs 4 0
        ∷ get_or xs 5 0
        ∷ get_or xs 6 0
        ∷ get_or xs 7 0
        ∷ drop 8 xs
split_eight (a ∷ b ∷ c ∷ d ∷ e ∷ f ∷ g ∷ h ∷ xs) le = refl
split_eight _ le = absurd (omega arith)

built_frame :
    (type : ℕ) (pl : Bytes) (buf_size seq : ℕ) (frame : Bytes)
    → (build_frame type pl buf_size seq).0 ≡ some frame
    → frame_bytes type pl seq ≡ frame
unfolding build_frame
built_frame type pl buf_size seq frame h =
    elim (Bool-cases (ltb buf_size (header_size + length pl + 2))) [
      | inl e ↦ ground (arith, e, h)
      | inr e ↦ ground (arith, e, h)
    ]

module _ {D : Type 0} ⦃f : Floating D⦄ where
  head-body :
      (r : Receiver D) (h₀ : Header) (now type len seq : ℕ) (buf : Bytes)
      → length buf ≡ max_frame_size
      → len ≤ 246
      → IsU16 seq
      → let hd = frame_header type len seq in
        feed (at r buf 0 sync h₀) now (put_header hd)
        ≡ at r (put_header hd ++ drop 8 buf) 8 (after_header len) hd
  head-body r h₀ now type len seq buf size fits seq_fits =
      ap (λ b. feed (at r b 0 sync h₀) now (put_header (frame_header type len seq)))
        (split_eight buf (omega (arith, size)))
      ∙ feed-header r h₀ now len type seq _ _ _ _ _ _ _ _ (drop 8 buf) fits seq_fits

  feed-body :
      (r : Receiver D) (h₀ : Header) (now type : ℕ) (pl : Bytes) (seq : ℕ) (buf : Bytes)
      → length buf ≡ max_frame_size
      → length pl ≤ 246
      → IsU16 seq
      → let body = frame_body type pl seq in
        feed (at r buf 0 sync h₀) now body
        ≡ at r
            (body ++ drop (length body) buf)
            (length body)
            crc
            (frame_header type (length pl) seq)
  feed-body r h₀ now type [] seq buf size fits seq_fits =
      head-body r h₀ now type 0 seq buf size fits seq_fits
  feed-body r h₀ now type (b ∷ bs) seq buf size fits seq_fits =
      let hd = frame_header type (suc (length bs)) seq in
      let room = length-drop 8 buf in
      let whole : 8 + suc (length bs) ≡ length (frame_body type (b ∷ bs) seq) =
        omega (arith, length-append (put_header hd) (b ∷ bs)) in
      let busy : after_header (suc (length bs)) ≡ payload = ground arith in
      feed-append (at r buf 0 sync h₀) now (put_header hd) (b ∷ bs)
      ∙ ap (λ t. feed t now (b ∷ bs))
          (head-body r h₀ now type (suc (length bs)) seq buf size fits seq_fits)
      ∙ ap (λ st. feed (at r (put_header hd ++ drop 8 buf) 8 st hd) now (b ∷ bs)) busy
      ∙ feed-payload b bs r now (put_header hd) (drop 8 buf) hd (omega (arith, room)) (omega arith)
      ∙ ap (λ l. at r ((put_header hd ++ b ∷ bs) ++ l) (length (put_header hd ++ b ∷ bs)) crc hd)
          (drop-drop 8 (suc (length bs)) buf ∙ ap (λ n. drop n buf) whole)

  -- What a whole frame does, whatever its two last bytes are.
  pub feed-frame :
      (r : Receiver D) (now type : ℕ) (pl : Bytes) (seq c₀ c₁ : ℕ)
      → AtRest r
      → length r.frame_buf ≡ max_frame_size
      → length pl ≤ 246
      → IsU16 seq
      → let body = frame_body type pl seq in
        let hd = frame_header type (length pl) seq in
        let t =
          at r (body ++ c₀ ∷ c₁ ∷ drop (length body + 2) r.frame_buf) (length body + 2) crc hd in
        feed r now (body ++ c₀ ∷ c₁ ∷ [])
        ≡ record t { frame_pos = 0; state = sync; model = process_frame t now }
  feed-frame r now type pl seq c₀ c₁ rest size fits seq_fits =
      let body = frame_body type pl seq in
      let hd = frame_header type (length pl) seq in
      let start : r ≡ at r r.frame_buf 0 sync r.head =
        λ i. record r { frame_pos = rest.1 i; state = rest.0 i } in
      let long = length-append (put_header hd) pl in
      let one = drop-get_or (length body) r.frame_buf (omega (arith, long)) in
      let two = drop-get_or (suc (length body)) r.frame_buf (omega (arith, long)) in
      let two_more : suc (suc (length body)) ≡ length body + 2 = omega arith in
      let tail : drop (suc (suc (length body))) r.frame_buf ≡ drop (length body + 2) r.frame_buf =
        ap (λ n. drop n r.frame_buf) two_more in
      feed-append r now body (c₀ ∷ c₁ ∷ [])
      ∙ ap (λ t. feed (feed t now body) now (c₀ ∷ c₁ ∷ [])) start
      ∙ ap (λ t. feed t now (c₀ ∷ c₁ ∷ []))
          (feed-body r r.head now type pl seq r.frame_buf size fits seq_fits
            ∙ ap (λ l. at r (body ++ l) (length body) crc hd)
                (one ∙ ap (λ l. get_or r.frame_buf (length body) 0 ∷ l) two))
      ∙ feed-crc r now body _ _ c₀ c₁ _ hd (omega (arith, long)) fits
      ∙ ap
          (λ l. record r {
            frame_buf = body ++ c₀ ∷ c₁ ∷ l;
            frame_pos = 0;
            state = sync;
            head = hd;
            model = process_frame (at r (body ++ c₀ ∷ c₁ ∷ l) (length body + 2) crc hd) now;
          })
          tail

  -- A frame with any two bytes for its CRC leaves the receiver at rest, and changes the data model
  -- exactly if they are the CRC of the frame: then the frame is counted and dispatched, and
  -- otherwise the model is what it was.
  pub model-feed_frame :
      (r : Receiver D) (now type : ℕ) (pl : Bytes) (seq c₀ c₁ : ℕ)
      → AtRest r
      → IsRx r
      → length pl ≤ 246
      → IsU16 seq
      → let body = frame_body type pl seq in
        let hd = frame_header type (length pl) seq in
        let t = feed r now (body ++ c₀ ∷ c₁ ∷ []) in
        AtRest t
        × (t.model ≡ (
            if c₀ + c₁ * 256 == crc16 body
            then dispatch
                (at r
                  (body ++ c₀ ∷ c₁ ∷ drop (length body + 2) r.frame_buf)
                  (length body + 2)
                  crc
                  hd)
                (mark_alive r.model now seq)
            else r.model))
  model-feed_frame r now type pl seq c₀ c₁ rest v fits seq_fits =
      let body = frame_body type pl seq in
      let hd = frame_header type (length pl) seq in
      let whole = feed-frame r now type pl seq c₀ c₁ rest v.buf_size fits seq_fits in
      let long = length-append (put_header hd) pl in
      (
        (ap Receiver.state whole, ap Receiver.frame_pos whole),
        ap Receiver.model whole
            ∙ process_frame-at r now (length body + 2) body c₀ c₁ _ hd (omega (arith, long)) fits,
      )

  dispatch-snapshot :
      (t : Receiver D) (m : SatData D) (snap : Snapshot) (rest : Bytes)
      → drop header_size t.frame_buf ≡ put_snapshot snap ++ rest
      → t.head.msg_type ≡ msg_snapshot
      → IsSnapshot snap
      → snap.num_ifaces ≤ max_interfaces
      → dispatch t m ≡ update_snapshot m snap
  unfolding dispatch
  dispatch-snapshot t m snap rest buf type ok few =
      let count : min (u8_at (put_snapshot snap ++ rest) 9) max_interfaces ≡ snap.num_ifaces =
        unfold put_snapshot in omega arith in
      rw (type, buf, count) (ap (update_snapshot m) (get_snapshot-put_snapshot snap rest ok))

  -- Every frame that `build_frame` makes with a snapshot, whose fields fit their widths and which has
  -- at most 8 interfaces, is delivered: the receiver, at rest before it, is at rest again, and its
  -- data model has counted the frame and taken over that very snapshot.
  pub snapshot_delivered :
      (r : Receiver D) (now : ℕ) (snap : Snapshot) (buf_size seq : ℕ) (frame : Bytes)
      → AtRest r
      → IsRx r
      → IsSnapshot snap
      → snap.num_ifaces ≤ max_interfaces
      → IsU16 seq
      → (build_frame msg_snapshot (put_snapshot snap) buf_size seq).0 ≡ some frame
      → AtRest (feed r now frame)
        × ((feed r now frame).model ≡ update_snapshot (mark_alive r.model now seq) snap)
  snapshot_delivered r now snap buf_size seq frame rest v ok few seq_fits built =
      let pl = put_snapshot snap in
      let body = frame_body msg_snapshot pl seq in
      let fits : length pl ≤ 246 = omega (arith, length-put_snapshot snap ok) in
      let (idle, model) =
        model-feed_frame r now msg_snapshot pl seq (byte0 (crc16 body)) (byte1 (crc16 body)) rest v
          fits seq_fits in
      let same : (byte0 (crc16 body) + byte1 (crc16 body) * 256 == crc16 body) ≡ true =
        (==_iff _ _).1 (u16_bytes (crc16 body) (crc16-lt body)) in
      let e = built_frame msg_snapshot pl buf_size seq frame built in
      subst
        (λ fr.
          AtRest (feed r now fr)
          × ((feed r now fr).model ≡ update_snapshot (mark_alive r.model now seq) snap))
        e (idle, model ∙ rw same (dispatch-snapshot _ _ snap _ refl refl ok few))
