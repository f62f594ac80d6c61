-- ===== src/Discovery/Quality.antt =====
-- `discovery_wan_quality`. `ping i` is the latency of the i-th ping, or `none` if there is no answer.
use embedded_network_monitor.Prelude.{
  ℕ, zero, suc, ◌+◌, ◌-◌, ◌*◌, ◌/◌, ◌≤◌, ◌≡◌, refl, ap, ◌∙◌, Option, none, some, List, [], ◌∷◌,
  arith, ltb, if◌then◌else◌, length,
}
use embedded_network_monitor.Prelude.Floating.{Floating}
use embedded_network_monitor.NetState.{WanDiscovery}

abbrev pub attempts : ℕ
attempts = 5

module _ {D : Type 0} where
  unfoldable pub keep_answer : Option D → List D → List D
  keep_answer none rest = rest
  keep_answer (some lat) rest = lat ∷ rest

  -- the latencies of the pings from `i` on, `n` of them, that were answered
  unfoldable pub answered : (ℕ → Option D) → ℕ → ℕ → List D
  unfolding keep_answer
  answered ping zero i = []
  answered ping (suc n) i = let rest = answered ping n (suc i) in keep_answer (ping i) rest

module _ {D : Type 0} ⦃f : Floating D⦄ where
  unfoldable pub sum_from : D → List D → D
  sum_from acc [] = acc
  sum_from acc (x ∷ xs) = sum_from (f.add acc x) xs

  abbrev pub deviation : D → D → D
  deviation avg x = let d = f.sub x avg in if f.gtb f.zero_d d then f.sub f.zero_d d else d

  unfoldable pub deviations_from : D → D → List D → D
  deviations_from avg acc [] = acc
  deviations_from avg acc (x ∷ xs) = deviations_from avg (f.add acc (deviation avg x)) xs

  -- with the latencies of the answered pings
  unfoldable pub rate_wan : List D → WanDiscovery D → WanDiscovery D
  unfolding sum_from deviations_from
  rate_wan [] w = record w { wan_packet_loss_pct = 100; wan_jitter_ms = f.zero_d }
  rate_wan (x ∷ xs) w =
      let latencies = x ∷ xs in
      let successes = length latencies in
      let avg = f.div (sum_from f.zero_d latencies) (f.of_ℕ successes) in
      record w {
        wan_packet_loss_pct = (attempts - successes) * 100 / attempts;
        wan_latency_ms = avg;
        wan_jitter_ms =
            if ltb 1 successes
            then f.div (deviations_from avg f.zero_d latencies) (f.of_ℕ successes)
            else f.zero_d;
      }

  unfoldable pub wan_quality : (ℕ → Option D) → WanDiscovery D → WanDiscovery D
  unfolding answered rate_wan
  wan_quality ping w = rate_wan (answered ping attempts 0) w

module _ {D : Type 0} where
  unfoldable pub count_loss : Option D → ℕ → ℕ
  count_loss none rest = suc rest
  count_loss (some lat) rest = rest

  -- the pings from `i` on, `n` of them, that were not answered
  unfoldable pub lost : (ℕ → Option D) → ℕ → ℕ → ℕ
  unfolding count_loss
  lost ping zero i = 0
  lost ping (suc n) i = let rest = lost ping n (suc i) in count_loss (ping i) rest

  keep_answer-count_loss :
      (o : Option D) (xs : List D) (k : ℕ)
      → length (keep_answer o xs) + count_loss o k ≡ suc (length xs + k)
  unfolding keep_answer count_loss
  keep_answer-count_loss none xs k = omega arith
  keep_answer-count_loss (some lat) xs k = omega arith

  answered-lost : (ping : ℕ → Option D) (n i : ℕ) → length (answered ping n i) + lost ping n i ≡ n
  unfolding answered lost
  answered-lost ping zero i = refl
  answered-lost ping (suc n) i =
      keep_answer-count_loss (ping i) (answered ping n (suc i)) (lost ping n (suc i))
      ∙ ap suc (answered-lost ping n (suc i))

module _ {D : Type 0} ⦃f : Floating D⦄ where
  -- The packet loss is 20 per cent for each of the five pings that is not answered, from 0 to 100; and
  -- if none is answered, the latency stays as it was and the jitter is 0.
  pub wan_quality_lem :
      (ping : ℕ → Option D) (w : WanDiscovery D)
      → let t = wan_quality ping w in
        (t.wan_packet_loss_pct ≡ 20 * lost ping attempts 0)
        × (t.wan_packet_loss_pct ≤ 100)
        × (lost ping attempts 0 ≡ attempts
            → (t.wan_latency_ms ≡ w.wan_latency_ms) × (t.wan_jitter_ms ≡ f.zero_d))
  unfolding wan_quality rate_wan
  wan_quality_lem ping w = rated (answered ping attempts 0) (answered-lost ping attempts 0)
    where
      rated :
          (ls : List D)
          → length ls + lost ping attempts 0 ≡ attempts
          → let t = rate_wan ls w in
            (t.wan_packet_loss_pct ≡ 20 * lost ping attempts 0)
            × (t.wan_packet_loss_pct ≤ 100)
            × (lost ping attempts 0 ≡ attempts
                → (t.wan_latency_ms ≡ w.wan_latency_ms) × (t.wan_jitter_ms ≡ f.zero_d))
      rated [] e = (omega arith, omega arith, λ all. (refl, refl))
      rated (x ∷ xs) e = (omega arith, omega arith, λ all. absurd (omega arith))
