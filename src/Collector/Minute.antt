-- ===== src/Collector/Minute.antt =====
-- The averages of a minute in the long history.
use embedded_network_monitor.Prelude.{
  ℕ, zero, suc, ◌+◌, ◌≤◌, ◌<◌, ◌≡◌, refl, ap, ap₂, ◌∙◌, ◌≢◌, ◌⊎◌, inl, inr, List, [], ◌∷◌, ◌++◌,
  arith, leb, ◌==◌, Bool-cases, length, get_or, set, length-set, get_or-set_self, get_or-set_ne,
  ==_iff,
}
use embedded_network_monitor.Prelude.Floating.{Floating}
use embedded_network_monitor.Prelude.Window.{last}
use embedded_network_monitor.Collector.State.{Collector, long_len, no_track, modify}
use embedded_network_monitor.Collector.Fast.{history_push, flush_minute, minute_step}
use embedded_network_monitor.Collector.Lookup.{length-modify, get_or-modify_self, get_or-modify_ne}
use embedded_network_monitor.Collector.History.{IsTrack, held, held-history_push}

module _ {D : Type 0} ⦃f : Floating D⦄ where
  -- the average of the rates that were added up for interface `k`
  abbrev pub average : List D → ℕ → D
  average acc k = f.narrow (f.div (get_or acc k f.zero_d) (f.of_ℕ 60))

  flush_minute-below :
      (n i k : ℕ) (c : Collector D)
      → k < i
      → (get_or (flush_minute n i c).long k no_track ≡ get_or c.long k no_track)
        × (get_or (flush_minute n i c).minute_rx k f.zero_d ≡ get_or c.minute_rx k f.zero_d)
        × (get_or (flush_minute n i c).minute_tx k f.zero_d ≡ get_or c.minute_tx k f.zero_d)
  unfolding flush_minute
  flush_minute-below zero i k c lt = (refl, refl, refl)
  flush_minute-below (suc n) i k c lt =
      let ne : i ≢ k = omega arith in
      let (l, r, t) = flush_minute-below n (suc i) k _ (omega arith) in
      (
        l ∙ get_or-modify_ne c.long i k _ no_track ne,
        r ∙ get_or-set_ne c.minute_rx i k f.zero_d f.zero_d ne,
        t ∙ get_or-set_ne c.minute_tx i k f.zero_d f.zero_d ne,
      )

  flush_minute-at :
      (n i k : ℕ) (c : Collector D)
      → i ≤ k
      → k < i + n
      → k < length c.long
      → k < length c.minute_rx
      → k < length c.minute_tx
      → (get_or (flush_minute n i c).long k no_track
          ≡ history_push long_len
              (average c.minute_rx k)
              (average c.minute_tx k)
              (get_or c.long k no_track))
        × (get_or (flush_minute n i c).minute_rx k f.zero_d ≡ f.zero_d)
        × (get_or (flush_minute n i c).minute_tx k f.zero_d ≡ f.zero_d)
  unfolding flush_minute
  flush_minute-at zero i k c ge lt hl hr ht = absurd (omega arith)
  flush_minute-at (suc n) i k c ge lt hl hr ht =
      let long = history_push long_len (average c.minute_rx i) (average c.minute_tx i) in
      elim (Bool-cases (i == k)) [
        | inl e ↦
            let here : i ≡ k = (==_iff i k).0 e in
            let (l, r, t) = flush_minute-below n (suc i) k _ (omega (arith, here)) in
            (
              l
                  ∙ ap
                      (λ m.
                        get_or
                          (modify c.long m
                            (history_push long_len (average c.minute_rx m) (average c.minute_tx m)))
                          k no_track)
                      here
                  ∙ get_or-modify_self c.long k _ no_track hl,
              r
                  ∙ ap (λ m. get_or (set c.minute_rx m f.zero_d) k f.zero_d) here
                  ∙ get_or-set_self c.minute_rx k f.zero_d f.zero_d hr,
              t
                  ∙ ap (λ m. get_or (set c.minute_tx m f.zero_d) k f.zero_d) here
                  ∙ get_or-set_self c.minute_tx k f.zero_d f.zero_d ht,
            )
        | inr e ↦
            let ne : i ≢ k = ground arith in
            let after : i < k = ground arith in
            let (l, r, t) =
              flush_minute-at n (suc i) k _ (omega arith) (omega arith)
                (omega (arith, length-modify c.long i long))
                (omega (arith, length-set c.minute_rx i f.zero_d))
                (omega (arith, length-set c.minute_tx i f.zero_d)) in
            (
              l
                  ∙ ap (history_push long_len _ _) (get_or-modify_ne c.long i k long no_track ne)
                  ∙ ap₂
                      (λ rx tx.
                        history_push long_len (f.narrow (f.div rx (f.of_ℕ 60)))
                          (f.narrow (f.div tx (f.of_ℕ 60))) (get_or c.long k no_track))
                      (get_or-set_ne c.minute_rx i k f.zero_d f.zero_d ne)
                      (get_or-set_ne c.minute_tx i k f.zero_d f.zero_d ne),
              r,
              t,
            )
      ]

  -- At the tick that completes a minute, the long history of each interface gets the averages of the
  -- rates that were added up for it, of which the last 1440 are kept, oldest first, and adding up
  -- starts again from zero. At any other tick nothing but the count of the minute changes.
  pub minute_step_lem :
      (c : Collector D) (k : ℕ)
      → k < length c.net.ifaces
      → k < length c.long
      → k < length c.minute_rx
      → k < length c.minute_tx
      → IsTrack long_len (get_or c.long k no_track)
      → ((c.minute_count < 59) × (minute_step c ≡ record c { minute_count = c.minute_count + 1 }))
        ⊎ ((59 ≤ c.minute_count)
            × ((minute_step c).minute_count ≡ 0)
            × (held long_len (get_or (minute_step c).long k no_track)
                ≡ last long_len (
                    held long_len (get_or c.long k no_track)
                    ++ record { rx_bps = average c.minute_rx k; tx_bps = average c.minute_tx k }
                      ∷ []))
            × (get_or (minute_step c).minute_rx k f.zero_d ≡ f.zero_d)
            × (get_or (minute_step c).minute_tx k f.zero_d ≡ f.zero_d))
  unfolding minute_step
  minute_step_lem c k lt hl hr ht h = elim (Bool-cases (leb 60 (c.minute_count + 1))) [
    | inl e ↦
        let (l, r, t) =
          flush_minute-at (length c.net.ifaces) 0 k c (omega arith) (omega arith) hl hr ht in
        rw e (
          inr (
            ground arith,
            refl,
            ap (held long_len) l
                ∙ held-history_push long_len (average c.minute_rx k) (average c.minute_tx k)
                    (get_or c.long k no_track) h,
            r,
            t,
          ))
    | inr e ↦ rw e (inl (ground arith, refl))
  ]
