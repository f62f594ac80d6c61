-- ===== src/Ping/Examples.antt =====
-- Runs and instances of the checksum.
use embedded_network_monitor.Prelude.Floating.{nat_floating}
use embedded_network_monitor.Prelude.{
  ◌≡◌, refl, [], ◌∷◌, arith, Bytes, replicate, List, All, ℕ, false, true, ◌++◌, inl, some, inr,
  codes, none,
}
use embedded_network_monitor.Ping.Checksum.{sum_words, icmp_checksum, request}
use embedded_network_monitor.Ping.Verified.{icmp_checksum-request}
use embedded_network_monitor.Ping.Probe.{is_reply, net_ping, received, await_reply}
use embedded_network_monitor.Ping.Echo.{IsSkipped, echo_of, net_ping_lem}

-- identifier 0x1234, number 1, and an odd payload
abbrev rest : Bytes
rest = 0x12 ∷ 0x34 ∷ 0 ∷ 1 ∷ 0 ∷ 1 ∷ 2 ∷ []

odd_run : icmp_checksum (8 ∷ 0 ∷ 0 ∷ 0 ∷ 255 ∷ []) ≡ 65272
unfolding icmp_checksum sum_words
odd_run = refl

icmp_checksum-request_example : icmp_checksum (request rest) ≡ 0
icmp_checksum-request_example = icmp_checksum-request rest (omega arith) (omega arith)

-- an IP header of 20 bytes, a packet that is too short and comes late, and a request of another host
abbrev header : Bytes
header = 0x45 ∷ replicate 19 0

abbrev before : List (Bytes × ℕ)
before = (header ++ (3 ∷ 3 ∷ []), 5000) ∷ (header ++ replicate 40 8, 7) ∷ []

not_ours : is_reply 1234 1 (replicate 40 8) ≡ false
unfolding is_reply
not_ours = refl

before-IsSkipped : All (IsSkipped 1234 1 1000) before
before-IsSkipped = ((omega arith, inl (omega arith)), ((omega arith, inr (not_ours, refl)), tt))

net_ping_lem_example :
    net_ping
      (λ t. true)
      true
      (λ packet. some (before ++ ((echo_of header 9 9 packet, 12) ∷ [])))
      1234
      (some (codes "10.0.0.1"))
      1000
      65536
    ≡ (some 12, 1)
net_ping_lem_example =
    net_ping_lem (λ t. true) (λ packet. some (before ++ ((echo_of header 9 9 packet, 12) ∷ [])))
      1234 1000 65536 9 9 (codes "10.0.0.1") header 12 before [] refl
      (record { full = omega arith; own_length = refl }) before-IsSkipped refl

-- Without an answer, and without a target.
net_ping_run :
    (net_ping {D = ℕ} (λ t. true) true (λ packet. some []) 1234 (some (codes "10.0.0.1")) 1000 7
      ≡ (none, 8))
    × (net_ping {D = ℕ} (λ t. true) true (λ packet. some []) 1234 none 1000 7 ≡ (none, 7))
unfolding net_ping received await_reply
net_ping_run = (refl, refl)
