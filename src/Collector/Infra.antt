-- ===== src/Collector/Infra.antt =====
-- The infrastructure devices are pinged in turn.
use embedded_network_monitor.Prelude.{
  ℕ, zero, suc, ◌+◌, ◌%◌, ◌<◌, ◌≡◌, refl, sym, ap, ◌∙◌, ◌⊎◌, inl, inr, true, false, Option, none,
  some, List, arith, Bool-cases, Bytes, length,
}
use native.Mathlib.Nat.{mod-add-mod}
use embedded_network_monitor.NetState.{InfraDevice}
use embedded_network_monitor.Collector.State.{Collector, modify}
use embedded_network_monitor.Collector.Medium.{
  Probe, enabled_at, pick_infra, ping_infra, ping_picked, infra_step,
}

around : (n idx k : ℕ) → ((idx + 1) % n + k) % n ≡ (idx + suc k) % n
around n idx k = rw mod-add-mod (ap (λ m. m % n) (omega arith))

module _ {D : Type 0} where
  -- none of the first `n` devices from `idx` on, round the end, is enabled
  abbrev pub NoneEnabled : List (InfraDevice D) → ℕ → ℕ → Type 0
  NoneEnabled devs n idx = (j : ℕ) → j < n → enabled_at devs ((idx + j) % length devs) ≡ false

  -- The outcome is the first enabled device of `n`, and the index behind it; or none is enabled.
  abbrev pub PicksFirst : List (InfraDevice D) → ℕ → ℕ → Option ℕ × ℕ → Type 0
  PicksFirst devs n idx r =
      ((r.0 ≡ none) × NoneEnabled devs n idx)
      ⊎ ((k : ℕ) × (k < n)
          × (enabled_at devs ((idx + k) % length devs) ≡ true)
          × NoneEnabled devs k idx
          × (r.0 ≡ some ((idx + k) % length devs))
          × (r.1 ≡ (idx + k + 1) % length devs))

  -- a device that is not enabled, put before the others
  NoneEnabled-suc :
      (devs : List (InfraDevice D)) (n idx : ℕ)
      → enabled_at devs (idx % length devs) ≡ false
      → NoneEnabled devs n ((idx + 1) % length devs)
      → NoneEnabled devs (suc n) idx
  NoneEnabled-suc devs n idx first others zero lt =
      ap (λ m. enabled_at devs (m % length devs)) (omega arith) ∙ first
  NoneEnabled-suc devs n idx first others (suc j) lt =
      ap (enabled_at devs) (sym (around (length devs) idx j)) ∙ others j (omega arith)

  pick_infra-PicksFirst :
      (devs : List (InfraDevice D)) (n idx : ℕ) → PicksFirst devs n idx (pick_infra devs n idx)
  unfolding pick_infra
  pick_infra-PicksFirst devs zero idx = inl (refl, λ j lt. absurd (omega arith))
  pick_infra-PicksFirst devs (suc n) idx = elim (Bool-cases (enabled_at devs (idx % length devs))) [
    | inl e ↦
        let here : (idx + 0) % length devs ≡ idx % length devs =
          ap (λ m. m % length devs) (omega arith) in
        rw e (
          inr (
            0,
            omega arith,
            ap (enabled_at devs) here ∙ e,
            λ j lt. absurd (omega arith),
            ap some (sym here),
            ap (λ m. m % length devs) (omega arith),
          ))
    | inr e ↦ rw e (elim (pick_infra-PicksFirst devs n ((idx + 1) % length devs)) [
      | inl (r, idle) ↦ inl (r, NoneEnabled-suc devs n idx e idle)
      | inr (k, lt, on, idle, r, next) ↦
          let moved = around (length devs) idx k in
          inr (
            suc k,
            omega arith,
            ap (enabled_at devs) (sym moved) ∙ on,
            NoneEnabled-suc devs k idx e idle,
            r ∙ ap some moved,
            next
                ∙ ap (λ m. m % length devs) (omega arith)
                ∙ around (length devs) idx (k + 1)
                ∙ ap (λ m. m % length devs) (omega arith),
          )
    ])
  ]

  -- One tick pings the first enabled device from the current index on, round the end, and no other;
  -- the next tick starts behind it. If no device is enabled, nothing is pinged.
  pub infra_step_lem :
      (ping : Bytes → ℕ → Probe D) (c : Collector D)
      → let devs = c.net.infra in
        let t = infra_step ping c in
        ((t.net.infra ≡ devs) × NoneEnabled devs (length devs) c.infra_idx)
        ⊎ ((k : ℕ) × (k < length devs)
            × (enabled_at devs ((c.infra_idx + k) % length devs) ≡ true)
            × NoneEnabled devs k c.infra_idx
            × (t.net.infra ≡ modify devs ((c.infra_idx + k) % length devs) (ping_infra ping))
            × (t.infra_idx ≡ (c.infra_idx + k + 1) % length devs))
  unfolding infra_step ping_picked
  infra_step_lem ping c =
      let devs = c.net.infra in
      elim (pick_infra-PicksFirst devs (length devs) c.infra_idx) [
        | inl (r, idle) ↦ inl (ap (λ o. ping_picked ping o devs) r, idle)
        | inr (k, lt, on, idle, r, next) ↦
            inr (k, lt, on, idle, ap (λ o. ping_picked ping o devs) r, next)
      ]
