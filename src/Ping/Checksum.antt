-- ===== src/Ping/Checksum.antt =====
-- `icmp_checksum` of src/net/net_ping.c, on a little-endian machine.
use embedded_network_monitor.Prelude.{ℕ, ◌+◌, ◌-◌, ◌*◌, ◌/◌, ◌%◌, ◌^◌, [], ◌∷◌, Bytes}

-- the loop over the words, and the odd byte, in 32 bits
unfoldable pub sum_words : ℕ → Bytes → ℕ
sum_words sum [] = sum
sum_words sum (b ∷ []) = (sum + b) % 2 ^ 32
sum_words sum (b₀ ∷ b₁ ∷ bs) = sum_words ((sum + (b₀ + b₁ * 256)) % 2 ^ 32) bs

-- the carries folded in, and the complement in 16 bits
abbrev pub fold_carry : ℕ → ℕ
fold_carry sum = sum / 65536 + sum % 65536

abbrev pub fold_complement : ℕ → ℕ
fold_complement sum = 65535 - (fold_carry sum + fold_carry sum / 65536) % 65536

unfoldable pub icmp_checksum : Bytes → ℕ
unfolding sum_words
icmp_checksum bytes = fold_complement (sum_words 0 bytes)

-- The request of `net_ping`: echo, code 0, a checksum, then identifier, number and payload.
abbrev pub with_checksum : ℕ → Bytes → Bytes
with_checksum sum rest = 8 ∷ 0 ∷ sum % 256 ∷ sum / 256 % 256 ∷ rest

unfoldable pub request : Bytes → Bytes
unfolding icmp_checksum
request rest = with_checksum (icmp_checksum (with_checksum 0 rest)) rest
