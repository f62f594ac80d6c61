-- ===== src/Collector/History.antt =====
-- The rows of a history: what a push does to the row that it is for, and to the others.
use embedded_network_monitor.Prelude.{
  ℕ, ◌≤◌, ◌<◌, ◌≡◌, refl, sym, ap, ◌∙◌, ◌≢◌, inl, inr, List, [], ◌∷◌, ◌++◌, append-nil, arith, ◌==◌,
  if◌then◌else◌, Bool-cases, length, get_or, length-set, ==_iff,
}
use embedded_network_monitor.Prelude.Floating.{Floating}
use embedded_network_monitor.Prelude.Window.{contents, last, contents-push, last_all, length-window}
use embedded_network_monitor.NetState.{HistorySample}
use embedded_network_monitor.Collector.State.{Track, no_track, modify}
use embedded_network_monitor.Collector.Fast.{history_push}
use embedded_network_monitor.Collector.Lookup.{get_or-modify_self, get_or-modify_ne}

-- head and count of a history row stand where its capacity allows
pub record IsTrack {D : Type 0} (cap : ℕ) (t : Track D) : Type 0 where
  pub size : length t.buf ≡ cap
  pub head_in : t.head < cap
  pub count_in : t.count ≤ cap

pub history_push-IsTrack :
    {D : Type 0} (cap : ℕ) (rx tx : D) (t : Track D)
    → IsTrack cap t
    → IsTrack cap (history_push cap rx tx t)
unfolding history_push
history_push-IsTrack cap rx tx t h = record {
  size = length-set t.buf t.head _ ∙ h.size;
  head_in = omega (arith, h.head_in);
  count_in = ground (arith, h.count_in);
}

module _ {D : Type 0} ⦃f : Floating D⦄ where
  -- the samples of a history row, oldest first
  unfoldable pub held : ℕ → Track D → List (HistorySample D)
  held cap t = contents (record { rx_bps = f.zero_d; tx_bps = f.zero_d }) t.buf cap t.head t.count

  pub held-history_push :
      (cap : ℕ) (rx tx : D) (t : Track D)
      → IsTrack cap t
      → held cap (history_push cap rx tx t)
        ≡ last cap (held cap t ++ record { rx_bps = rx; tx_bps = tx } ∷ [])
  unfolding held history_push
  held-history_push cap rx tx t h =
      contents-push (record { rx_bps = f.zero_d; tx_bps = f.zero_d }) t.buf cap t.head t.count
        (record { rx_bps = rx; tx_bps = tx }) (omega (arith, h.size)) h.head_in h.count_in

  length-held : (cap : ℕ) (t : Track D) → length (held cap t) ≡ t.count
  unfolding held
  length-held cap t = length-window _ t.buf cap _ t.count

  pub held_kept : (cap : ℕ) (t : Track D) → IsTrack cap t → held cap t ≡ last cap (held cap t ++ [])
  held_kept cap t h = sym (
      ap (last cap) (append-nil (held cap t))
      ∙ last_all cap (held cap t) (omega (arith, length-held cap t, h.count_in)))

  -- A push into row `i`, seen at row `k`.
  pub row_pushed :
      (rows : List (Track D)) (i k cap : ℕ) (rx tx : D)
      → k < length rows
      → IsTrack cap (get_or rows k no_track)
      → let t = get_or (modify rows i (history_push cap rx tx)) k no_track in
        IsTrack cap t
        × (held cap t
            ≡ last cap (
                held cap (get_or rows k no_track)
                ++ (if i == k then record { rx_bps = rx; tx_bps = tx } ∷ [] else [])))
  row_pushed rows i k cap rx tx lt h = elim (Bool-cases (i == k)) [
    | inl e ↦
        let at_k = get_or-modify_self rows k (history_push cap rx tx) no_track lt in
        rw ((==_iff i k).0 e, at_k)
          (
            history_push-IsTrack cap rx tx (get_or rows k no_track) h,
            rw ((==_iff k k).1 refl) (held-history_push cap rx tx (get_or rows k no_track) h),
          )
    | inr e ↦
        let ne : i ≢ k = ground arith in
        rw (e, get_or-modify_ne rows i k (history_push cap rx tx) no_track ne)
          (h, held_kept cap (get_or rows k no_track) h)
  ]
