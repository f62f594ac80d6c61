-- ===== src/Ping/Probe.antt =====
-- `net_ping` of src/net/net_ping.c, on a little-endian machine. `inet_pton`, the socket and the answers
-- of the network are arguments.
use embedded_network_monitor.Prelude.{
  ℕ, zero, suc, ◌+◌, ◌-◌, ◌*◌, ◌/◌, ◌%◌, ◌^◌, Bool, not, ◌&&◌, ◌||◌, Option, none, some, List, [],
  ◌∷◌, ◌++◌, ltb, ◌==◌, if◌then◌else◌, Bytes, length, get_or, take, drop, replicate,
}
use embedded_network_monitor.Prelude.Floating.{Floating}
use embedded_network_monitor.Ping.Checksum.{request}

-- the size of `struct icmp`, and what `recv_buf` holds
abbrev pub icmp_size : ℕ
icmp_size = 28

abbrev pub recv_size : ℕ
recv_size = 256

-- the payload: `k` bytes that count up from `i`
unfoldable pub pattern_from : ℕ → ℕ → Bytes
pattern_from zero i = []
pattern_from (suc k) i = i % 256 ∷ pattern_from k (i + 1)

-- the request behind its checksum: the process, the number, the rest of `struct icmp` and the payload
unfoldable pub echo_rest : ℕ → ℕ → Bytes
unfolding pattern_from
echo_rest pid seq =
    pid / 256 % 256
    ∷ pid % 256
    ∷ seq / 256 % 256
    ∷ seq % 256
    ∷ (replicate (icmp_size - 8) 0 ++ pattern_from 32 0)

-- the test on what stands behind the IP header
unfoldable pub is_reply : ℕ → ℕ → Bytes → Bool
is_reply pid seq reply =
    (get_or reply 0 0 == 0)
    && (get_or reply 4 0 == pid / 256 % 256)
    && (get_or reply 5 0 == pid % 256)
    && (get_or reply 6 0 == seq / 256 % 256)
    && (get_or reply 7 0 == seq % 256)

-- the length of the IP header, from its first byte
abbrev pub ip_hlen : Bytes → ℕ
ip_hlen buf = get_or buf 0 0 % 16 * 4

module _ {D : Type 0} ⦃f : Floating D⦄ where
  -- The loop that waits, on the packets that arrive and how long after the request in milliseconds.
  -- Where they run out, recvfrom gives a timeout or an error.
  unfoldable pub await_reply : ℕ → ℕ → ℕ → List (Bytes × D) → Option D
  unfolding is_reply
  await_reply pid seq timeout_ms [] = none
  await_reply pid seq timeout_ms ((packet, elapsed) ∷ arrivals) =
      let later = await_reply pid seq timeout_ms arrivals in
      let buf = take recv_size packet in
      if length buf == 0
      then none
      else if ltb (length buf) (ip_hlen buf + icmp_size)
      then later
      else if is_reply pid seq (drop (ip_hlen buf) buf)
      then some elapsed
      else if not (f.gtb (f.of_ℕ timeout_ms) elapsed)
      then none
      else later

  unfoldable pub received : ℕ → ℕ → ℕ → Option (List (Bytes × D)) → Option D
  unfolding await_reply
  received pid seq timeout_ms none = none
  received pid seq timeout_ms (some arrivals) = await_reply pid seq timeout_ms arrivals

  -- The latency, if there is a reply, and `g_seq`. `network` gives what arrives after the packet that
  -- is sent, or nothing if sendto fails.
  unfoldable pub net_ping :
      (Bytes → Bool)
      → Bool
      → (Bytes → Option (List (Bytes × D)))
      → ℕ
      → Option Bytes
      → ℕ
      → ℕ
      → Option D × ℕ
  unfolding received echo_rest request
  net_ping is_address has_socket network pid none timeout_ms g_seq = (none, g_seq)
  net_ping is_address has_socket network pid (some target) timeout_ms g_seq =
      let seq = (g_seq + 1) % 2 ^ 16 in
      if not (is_address target) || not has_socket
      then (none, g_seq)
      else (received pid seq timeout_ms (network (request (echo_rest pid seq))), seq)
