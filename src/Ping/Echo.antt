-- ===== src/Ping/Echo.antt =====
-- What `net_ping` makes of the answers to its request.
use embedded_network_monitor.Prelude.{
  ℕ, ◌+◌, ◌/◌, ◌%◌, ◌^◌, ◌≤◌, ◌<◌, ◌≡◌, refl, sym, ◌∙◌, ◌⊎◌, inl, inr, Bool, true, false, Option,
  some, List, [], ◌∷◌, ◌++◌, arith, ltb, ◌==◌, Bool-cases, Bytes, length, get_or, take, drop, All,
  length-append, take_all,
}
use embedded_network_monitor.Ping.Probe.{
  icmp_size, recv_size, is_reply, ip_hlen, await_reply, received, net_ping, echo_rest, pattern_from,
}
use embedded_network_monitor.Ping.Checksum.{request}
use embedded_network_monitor.Prelude.Floating.{Floating}

-- a reply to the packet, with any checksum, behind an IP header
abbrev pub echo_of : Bytes → ℕ → ℕ → Bytes → Bytes
echo_of header c₀ c₁ packet = header ++ (0 ∷ 0 ∷ c₀ ∷ c₁ ∷ drop 4 packet)

-- an IP header that gives its own length
pub record IsHeader (header : Bytes) : Type 0 where
  pub full : 0 < length header
  pub own_length : length header ≡ ip_hlen header

-- a packet after which the loop goes on: one that is too short, or one in time that is no reply
abbrev pub IsSkipped : {D : Type 0} ⦃f : Floating D⦄ → ℕ → ℕ → ℕ → Bytes × D → Type 0
IsSkipped ⦃f⦄ pid seq timeout_ms (packet, elapsed) =
    let buf = take recv_size packet in
    (0 < length buf)
    × ((length buf < ip_hlen buf + icmp_size)
        ⊎ ((is_reply pid seq (drop (ip_hlen buf) buf) ≡ false)
            × (f.gtb (f.of_ℕ timeout_ms) elapsed ≡ true)))

length-echo_rest : (pid seq : ℕ) → length (echo_rest pid seq) ≡ 56
unfolding echo_rest pattern_from
length-echo_rest pid seq = refl

==_refl : (n : ℕ) → (n == n) ≡ true
==_refl n = ground arith

==_pos : {n : ℕ} → 0 < n → (n == 0) ≡ false
==_pos h = ground (arith, h)

ltb_ge : {a b : ℕ} → b ≤ a → ltb a b ≡ false
ltb_ge h = ground (arith, h)

is_reply-echo : (pid seq c₀ c₁ : ℕ) → is_reply pid seq (0 ∷ 0 ∷ c₀ ∷ c₁ ∷ echo_rest pid seq) ≡ true
unfolding is_reply echo_rest
is_reply-echo pid seq c₀ c₁ =
    rw
      (
        ==_refl (pid / 256 % 256),
        ==_refl (pid % 256),
        ==_refl (seq / 256 % 256),
        ==_refl (seq % 256),
      )
      refl

get_or-append_head :
    (header t : Bytes) → 0 < length header → get_or (header ++ t) 0 0 ≡ get_or header 0 0
get_or-append_head [] t h = absurd (omega arith)
get_or-append_head (c ∷ header) t h = refl

drop-length : (s t : Bytes) → drop (length s) (s ++ t) ≡ t
drop-length [] t = refl
drop-length (c ∷ s) t = drop-length s t

module _ {D : Type 0} ⦃f : Floating D⦄ where
  await_reply-skipped :
      (pid seq timeout_ms : ℕ) (before arrivals : List (Bytes × D))
      → All (IsSkipped pid seq timeout_ms) before
      → await_reply pid seq timeout_ms (before ++ arrivals)
        ≡ await_reply pid seq timeout_ms arrivals
  unfolding await_reply
  await_reply-skipped pid seq timeout_ms [] arrivals h = refl
  await_reply-skipped pid seq timeout_ms ((packet, elapsed) ∷ before) arrivals ((full, skip), h) =
      let buf = take recv_size packet in
      let next = await_reply-skipped pid seq timeout_ms before arrivals h in
      let some_bytes : (length buf == 0) ≡ false = ground arith in
      elim skip [
        | inl short ↦
            let is_short : ltb (length buf) (ip_hlen buf + icmp_size) ≡ true = ground arith in
            rw (some_bytes, is_short) next
        | inr (other, early) ↦ elim (Bool-cases (ltb (length buf) (ip_hlen buf + icmp_size))) [
          | inl e ↦ rw (some_bytes, e) next
          | inr e ↦ rw (some_bytes, e, other, early) next
        ]
      ]

  await_reply-echo :
      (pid seq timeout_ms c₀ c₁ : ℕ) (header : Bytes) (elapsed : D) (arrivals : List (Bytes × D))
      → IsHeader header
      → await_reply pid seq timeout_ms
          ((echo_of header c₀ c₁ (request (echo_rest pid seq)), elapsed) ∷ arrivals)
        ≡ some elapsed
  unfolding await_reply
  await_reply-echo pid seq timeout_ms c₀ c₁ header elapsed arrivals h =
      let body = 0 ∷ 0 ∷ c₀ ∷ c₁ ∷ echo_rest pid seq in
      let packet = header ++ body in
      let size : length packet ≡ length header + 60 =
        length-append header body ∙ omega (arith, length-echo_rest pid seq) in
      let hlen : ip_hlen packet ≡ length header =
        rw (get_or-append_head header body h.full) (sym h.own_length) in
      let whole : take recv_size packet ≡ packet =
        take_all recv_size packet (omega (arith, h.own_length)) in
      let some_bytes : (length packet == 0) ≡ false = ==_pos (omega (arith, size)) in
      let long : ltb (length packet) (ip_hlen packet + icmp_size) ≡ false =
        rw hlen (ltb_ge (omega (arith, size))) in
      let found : is_reply pid seq (drop (ip_hlen packet) packet) ≡ true =
        rw (hlen, drop-length header body) (is_reply-echo pid seq c₀ c₁) in
      let same : echo_of header c₀ c₁ (request (echo_rest pid seq)) ≡ packet =
        unfold request in refl in
      rw (same, whole, some_bytes, long, found) refl

  -- If the target is an address, the socket opens and the request can be sent, then its echo, with any
  -- IP header and checksum, gives the latency at which it arrives, after any packets that are too short,
  -- however late these are, or that are in time and no reply. The sequence number goes up, in 16 bits.
  pub net_ping_lem :
      (is_address : Bytes → Bool) (network : Bytes → Option (List (Bytes × D)))
      (pid timeout_ms g_seq c₀ c₁ : ℕ) (target header : Bytes) (elapsed : D)
      (before after : List (Bytes × D))
      → let seq = (g_seq + 1) % 2 ^ 16 in
        let packet = request (echo_rest pid seq) in
        is_address target ≡ true
        → IsHeader header
        → All (IsSkipped pid seq timeout_ms) before
        → network packet ≡ some (before ++ ((echo_of header c₀ c₁ packet, elapsed) ∷ after))
        → net_ping is_address true network pid (some target) timeout_ms g_seq ≡ (some elapsed, seq)
  unfolding net_ping received
  net_ping_lem is_address network pid timeout_ms g_seq c₀ c₁ target header elapsed before after
        address h skip sent =
      let seq = (g_seq + 1) % 2 ^ 16 in
      let echo = echo_of header c₀ c₁ (request (echo_rest pid seq)) in
      rw
        (
          address,
          sent,
          await_reply-skipped pid seq timeout_ms before ((echo, elapsed) ∷ after) skip,
          await_reply-echo pid seq timeout_ms c₀ c₁ header elapsed after h,
        )
        refl
