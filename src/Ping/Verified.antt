-- ===== src/Ping/Verified.antt =====
-- The checksum of a request verifies.
use embedded_network_monitor.Prelude.{
  ℕ, ◌+◌, ◌*◌, ◌%◌, ◌^◌, ◌≤◌, ◌<◌, ◌≡◌, ◌∙◌, [], ◌∷◌, arith, Bytes, length, All,
}
use embedded_network_monitor.Ping.Checksum.{
  sum_words, fold_complement, icmp_checksum, with_checksum, request,
}

abbrev pub IsByte : ℕ → Type 0
IsByte b = b < 256

-- the sum of the words, with no width
unfoldable total : Bytes → ℕ
total [] = 0
total (b ∷ []) = b
total (b₀ ∷ b₁ ∷ bs) = b₀ + b₁ * 256 + total bs

total-le : (bs : Bytes) → All IsByte bs → total bs ≤ 65535 * length bs
unfolding total
total-le [] h = omega arith
total-le (b ∷ []) h = omega (arith, h.0)
total-le (b₀ ∷ b₁ ∷ bs) h = omega (arith, h.0, h.1.0, total-le bs h.1.1)

sum_words-total :
    (sum : ℕ) (bs : Bytes) → sum + total bs < 2 ^ 32 → sum_words sum bs ≡ sum + total bs
unfolding sum_words total
sum_words-total sum [] h = omega arith
sum_words-total sum (b ∷ []) h = omega arith
sum_words-total sum (b₀ ∷ b₁ ∷ bs) h =
    let small : (sum + (b₀ + b₁ * 256)) % 2 ^ 32 ≡ sum + (b₀ + b₁ * 256) = omega arith in
    rw small (sum_words-total (sum + (b₀ + b₁ * 256)) bs (omega arith) ∙ omega arith)

sum_words-with_checksum :
    (sum : ℕ) (rest : Bytes)
    → sum < 65536
    → total rest < 2 ^ 31
    → sum_words 0 (with_checksum sum rest) ≡ 8 + (sum + total rest)
unfolding total
sum_words-with_checksum sum rest small bound =
    sum_words-total 0 (with_checksum sum rest) (omega arith) ∙ omega arith

fold_complement-verifies : (s : ℕ) → s < 2 ^ 31 → fold_complement (s + fold_complement s) ≡ 0
fold_complement-verifies s h = omega arith

-- The checksum over a request that carries its own is 0, as its receiver checks, for a packet of at
-- most 32,000 bytes.
pub icmp_checksum-request :
    (rest : Bytes) → All IsByte rest → length rest ≤ 32000 → icmp_checksum (request rest) ≡ 0
unfolding icmp_checksum request
icmp_checksum-request rest h short =
    let bound = total-le rest h in
    let zero_sum : sum_words 0 (with_checksum 0 rest) ≡ 8 + total rest =
      sum_words-with_checksum 0 rest (omega arith) (omega arith) ∙ omega arith in
    let sum = fold_complement (8 + total rest) in
    let full_sum : sum_words 0 (with_checksum sum rest) ≡ 8 + total rest + sum =
      sum_words-with_checksum sum rest (omega arith) (omega arith) ∙ omega arith in
    rw zero_sum (rw full_sum (fold_complement-verifies (8 + total rest) (omega arith)))
