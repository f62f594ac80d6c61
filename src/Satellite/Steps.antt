-- ===== src/Satellite/Steps.antt =====
-- The receiver byte by byte through a frame: its header, its payload, its CRC.
use embedded_network_monitor.Prelude.{
  ℕ, suc, ◌+◌, ◌*◌, ◌%◌, ◌^◌, ◌≤◌, ◌≡◌, refl, sym, ap, ap₂, ◌∙◌, inl, inr, true, false, [], ◌∷◌,
  ◌++◌, append_assoc, arith, ltb, leb, ◌==◌, if◌then◌else◌, Bool-cases, Bytes, length, get_or, set,
  drop, length-append, take-length-append,
}
use embedded_network_monitor.Prelude.Floating.{Floating}
use embedded_network_monitor.Satellite.Protocol.{Header, header_size, put_header, crc16}
use embedded_network_monitor.Satellite.Data.{mark_alive}
use embedded_network_monitor.Satellite.Encoder.{frame_header}
use embedded_network_monitor.Satellite.Wire.{IsU16, u16_bytes}
use embedded_network_monitor.Satellite.Receiver.{
  RxState, sync, payload, crc, Receiver, feed_sync, accept_header, feed_header, feed_payload,
  feed_crc, feed_in, feed_byte, feed, process_frame, dispatch,
}

set-length-append :
    (pre : Bytes) (x b : ℕ) (rest : Bytes) → set (pre ++ x ∷ rest) (length pre) b ≡ pre ++ b ∷ rest
set-length-append [] x b rest = refl
set-length-append (y ∷ pre) x b rest = ap (λ l. y ∷ l) (set-length-append pre x b rest)

get_or-at : (pre rest : Bytes) → get_or (pre ++ rest) (length pre) 0 ≡ get_or rest 0 0
get_or-at [] rest = refl
get_or-at (y ∷ pre) rest = get_or-at pre rest

get_or-next : (pre rest : Bytes) → get_or (pre ++ rest) (suc (length pre)) 0 ≡ get_or rest 1 0
get_or-next [] rest = refl
get_or-next (y ∷ pre) rest = get_or-next pre rest

-- the receiver with a buffer, a position, a state and a header
abbrev pub at : {D : Type 0} → Receiver D → Bytes → ℕ → RxState → Header → Receiver D
at r buf pos st h = record r { frame_buf = buf; frame_pos = pos; state = st; head = h }

-- the state behind a header that is accepted
abbrev pub after_header : ℕ → RxState
after_header len = if len == 0 then crc else payload

module _ {D : Type 0} ⦃f : Floating D⦄ where
  pub feed-append :
      (r : Receiver D) (now : ℕ) (xs ys : Bytes)
      → feed r now (xs ++ ys) ≡ feed (feed r now xs) now ys
  unfolding feed
  feed-append r now [] ys = refl
  feed-append r now (x ∷ xs) ys = feed-append (feed_byte r now x) now xs ys

  pub feed-header :
      (r : Receiver D) (h₀ : Header) (now len type seq : ℕ) (a b c d e g h i : ℕ) (rest : Bytes)
      → len ≤ 246
      → IsU16 seq
      → let hd = frame_header type len seq in
        feed (at r (a ∷ b ∷ c ∷ d ∷ e ∷ g ∷ h ∷ i ∷ rest) 0 sync h₀) now (put_header hd)
        ≡ at r (put_header hd ++ rest) 8 (after_header len) hd
  unfolding feed feed_byte feed_in feed_sync feed_header accept_header
  feed-header r h₀ now len type seq a b c d e g h i rest fits seq_fits =
      let small : ltb 246 len ≡ false = ground arith in
      rw (u16_bytes len (omega arith), u16_bytes seq seq_fits, small)
        (elim (Bool-cases (len == 0)) [ inl e ↦ rw e | inr e ↦ rw e ])

  stored :
      (r : Receiver D) (pre : Bytes) (x b : ℕ) (rest : Bytes) (st : RxState) (h : Header)
      → at r (set (pre ++ x ∷ rest) (length pre) b) (length pre + 1) st h
        ≡ at r ((pre ++ b ∷ []) ++ rest) (length (pre ++ b ∷ [])) st h
  stored r pre x b rest st h =
      ap₂ (λ buf pos. at r buf pos st h)
        (set-length-append pre x b rest ∙ sym (append_assoc pre (b ∷ []) rest))
        (omega (arith, length-append pre (b ∷ [])))

  payload_step :
      (r : Receiver D) (now : ℕ) (pre : Bytes) (x b : ℕ) (rest : Bytes) (h : Header)
      → feed_byte (at r (pre ++ x ∷ rest) (length pre) payload h) now b
        ≡ at r
            ((pre ++ b ∷ []) ++ rest)
            (length (pre ++ b ∷ []))
            (if leb (header_size + h.payload_len) (length pre + 1) then crc else payload)
            h
  unfolding feed_byte feed_in feed_payload
  payload_step r now pre x b rest h =
      elim (Bool-cases (leb (header_size + h.payload_len) (length pre + 1))) [
        | inl e ↦ rw e (stored r pre x b rest crc h)
        | inr e ↦ rw e (stored r pre x b rest payload h)
      ]

  pub feed-payload :
      (b : ℕ) (bs : Bytes) (r : Receiver D) (now : ℕ) (pre rest : Bytes) (h : Header)
      → suc (length bs) ≤ length rest
      → length pre + suc (length bs) ≡ header_size + h.payload_len
      → feed (at r (pre ++ rest) (length pre) payload h) now (b ∷ bs)
        ≡ at r ((pre ++ b ∷ bs) ++ drop (suc (length bs)) rest) (length (pre ++ b ∷ bs)) crc h
  unfolding feed
  feed-payload b bs r now pre [] h le len = absurd (omega arith)
  feed-payload b [] r now pre (x ∷ rest) h le len =
      let last_one : leb (header_size + h.payload_len) (length pre + 1) ≡ true = ground arith in
      payload_step r now pre x b rest h ∙ rw last_one
  feed-payload b (b' ∷ bs) r now pre (x ∷ rest) h le len =
      let more : leb (header_size + h.payload_len) (length pre + 1) ≡ false = ground arith in
      let step = payload_step r now pre x b rest h in
      ap (λ t. feed t now (b' ∷ bs)) (rw more at step)
      ∙ feed-payload b' bs r now (pre ++ b ∷ []) rest h (omega arith)
          (omega (arith, length-append pre (b ∷ [])))
      ∙ ap (λ l. at r (l ++ drop (suc (length bs)) rest) (length l) crc h)
          (append_assoc pre (b ∷ []) (b' ∷ bs))

  pub process_frame-at :
      (r : Receiver D) (now pos : ℕ) (pre : Bytes) (c₀ c₁ : ℕ) (rest : Bytes) (h : Header)
      → length pre ≡ header_size + h.payload_len
      → h.payload_len ≤ 246
      → let t = at r (pre ++ c₀ ∷ c₁ ∷ rest) pos crc h in
        process_frame t now ≡ (
          if c₀ + c₁ * 256 == crc16 pre
          then dispatch t (mark_alive r.model now h.sequence)
          else r.model)
  unfolding process_frame
  process_frame-at r now pos pre c₀ c₁ rest h len fits =
      let size : (header_size + h.payload_len) % 2 ^ 16 ≡ length pre = omega arith in
      rw (
        size,
        get_or-at pre (c₀ ∷ c₁ ∷ rest),
        get_or-next pre (c₀ ∷ c₁ ∷ rest),
        take-length-append pre (c₀ ∷ c₁ ∷ rest),
      )

  crc_first :
      (r : Receiver D) (now : ℕ) (pre : Bytes) (x c₀ : ℕ) (rest : Bytes) (h : Header)
      → length pre ≡ header_size + h.payload_len
      → feed_byte (at r (pre ++ x ∷ rest) (length pre) crc h) now c₀
        ≡ at r ((pre ++ c₀ ∷ []) ++ rest) (length (pre ++ c₀ ∷ [])) crc h
  unfolding feed_byte feed_in feed_crc
  crc_first r now pre x c₀ rest h len =
      let more : leb (header_size + h.payload_len + 2) (length pre + 1) ≡ false = ground arith in
      rw more (stored r pre x c₀ rest crc h)

  crc_second :
      (r : Receiver D) (now : ℕ) (pre : Bytes) (y c₀ c₁ : ℕ) (rest : Bytes) (h : Header)
      → length pre ≡ header_size + h.payload_len
      → h.payload_len ≤ 246
      → let t = at r (pre ++ c₀ ∷ c₁ ∷ rest) (length pre + 2) crc h in
        feed_byte (at r ((pre ++ c₀ ∷ []) ++ y ∷ rest) (length (pre ++ c₀ ∷ [])) crc h) now c₁
        ≡ record t { frame_pos = 0; state = sync; model = process_frame t now }
  unfolding feed_byte feed_in feed_crc
  crc_second r now pre y c₀ c₁ rest h len fits =
      let grown = length-append pre (c₀ ∷ []) in
      let done : leb (header_size + h.payload_len + 2) (length (pre ++ c₀ ∷ []) + 1) ≡ true =
        ground (arith, grown) in
      let buf : set ((pre ++ c₀ ∷ []) ++ y ∷ rest) (length (pre ++ c₀ ∷ [])) c₁
          ≡ pre ++ c₀ ∷ c₁ ∷ rest =
        set-length-append (pre ++ c₀ ∷ []) y c₁ rest ∙ append_assoc pre (c₀ ∷ []) (c₁ ∷ rest) in
      let pos : length (pre ++ c₀ ∷ []) + 1 ≡ length pre + 2 = omega (arith, grown) in
      rw done (
        ap₂
          (λ b p. record r {
            frame_buf = b;
            frame_pos = 0;
            state = sync;
            head = h;
            model = process_frame (at r b p crc h) now;
          })
          buf pos)

  -- the two bytes of the CRC, and what the frame does to the model
  pub feed-crc :
      (r : Receiver D) (now : ℕ) (pre : Bytes) (x y c₀ c₁ : ℕ) (rest : Bytes) (h : Header)
      → length pre ≡ header_size + h.payload_len
      → h.payload_len ≤ 246
      → let t = at r (pre ++ c₀ ∷ c₁ ∷ rest) (length pre + 2) crc h in
        feed (at r (pre ++ x ∷ y ∷ rest) (length pre) crc h) now (c₀ ∷ c₁ ∷ [])
        ≡ record t { frame_pos = 0; state = sync; model = process_frame t now }
  unfolding feed
  feed-crc r now pre x y c₀ c₁ rest h len fits =
      ap (λ t. feed_byte t now c₁) (crc_first r now pre x c₀ (y ∷ rest) h len)
      ∙ crc_second r now pre y c₀ c₁ rest h len fits
