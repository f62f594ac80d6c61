-- ===== src/Satellite/Display.antt =====
-- sat_data.c: totals, history, connection timeout.
use embedded_network_monitor.Prelude.{
  ℕ, ◌+◌, ◌-◌, ◌*◌, ◌%◌, ◌^◌, ◌≤◌, ◌<◌, ◌≡◌, ◌∙◌, ◌↔◌, true, List, [], ◌∷◌, ◌++◌, arith, ◌==◌,
  if◌then◌else◌, length, All, length-set,
}
use Prim.Native.Nat.{max}
use embedded_network_monitor.Prelude.Floating.{Floating}
use embedded_network_monitor.Prelude.Window.{contents, last, contents-push}
use embedded_network_monitor.Satellite.Protocol.{IfaceData, Snapshot}
use embedded_network_monitor.Satellite.Data.{
  SatData, Totals, no_totals, add_totals, totals_from, read_ifaces, update_snapshot, mark_alive,
  check_connection, history_len, connection_timeout_ms,
}

-- the true sums and the fastest true link, with no width
unfoldable pub sum_rx : List IfaceData → ℕ
sum_rx [] = 0
sum_rx (d ∷ ds) = d.rx_rate + sum_rx ds

unfoldable pub sum_tx : List IfaceData → ℕ
sum_tx [] = 0
sum_tx (d ∷ ds) = d.tx_rate + sum_tx ds

unfoldable pub fastest : List IfaceData → ℕ
fastest [] = 0
fastest (d ∷ ds) = max (d.link_speed * 1000000) (fastest ds)

-- a link of 4294 Mbit/s or less, the fastest whose bits per second fit 32 bits
abbrev pub LinkFits : IfaceData → Type 0
LinkFits d = d.link_speed ≤ 4294

totals_from-sums :
    (ds : List IfaceData) (t : Totals)
    → t.rx < 2 ^ 32
    → t.tx < 2 ^ 32
    → ((totals_from t ds).rx ≡ (t.rx + sum_rx ds) % 2 ^ 32)
      × ((totals_from t ds).tx ≡ (t.tx + sum_tx ds) % 2 ^ 32)
unfolding totals_from add_totals sum_rx sum_tx
totals_from-sums [] t h k = omega arith
totals_from-sums (d ∷ ds) t h k =
    omega (arith, totals_from-sums ds (add_totals t d) (omega arith) (omega arith))

totals_from-link :
    (ds : List IfaceData) (t : Totals)
    → All LinkFits ds
    → (totals_from t ds).link ≡ max t.link (fastest ds)
unfolding totals_from add_totals fastest
totals_from-link [] t h = omega arith
totals_from-link (d ∷ ds) t h = totals_from-link ds (add_totals t d) h.1 ∙ ground (arith, h.0)

module _ {D : Type 0} ⦃f : Floating D⦄ where
  -- After a snapshot the total rates are the sums of the rates of the interfaces read, modulo 2 ^ 32;
  -- and the link speed for the gauge is that of the fastest interface read, 100 Mbit/s if none has a
  -- speed, as long as no link is faster than 4294 Mbit/s.
  pub update_snapshot_totals :
      (s : SatData D) (snap : Snapshot)
      → All LinkFits (read_ifaces snap)
      → let t = update_snapshot s snap in
        (t.total_rx_rate ≡ sum_rx (read_ifaces snap) % 2 ^ 32)
        × (t.total_tx_rate ≡ sum_tx (read_ifaces snap) % 2 ^ 32)
        × (t.max_link_bps
            ≡ (if fastest (read_ifaces snap) == 0 then 100000000 else fastest (read_ifaces snap)))
  unfolding update_snapshot
  update_snapshot_totals s snap h =
      let ds = read_ifaces snap in
      let sums = totals_from-sums ds no_totals (omega arith) (omega arith) in
      let link : (totals_from no_totals ds).link ≡ fastest ds =
        totals_from-link ds no_totals h ∙ omega arith in
      (omega (arith, sums), omega (arith, sums), rw link (ground arith))

  -- If the only interface read is faster than 4294 Mbit/s, the link speed for the gauge comes out
  -- below its true speed.
  pub fast_link_wraps :
      (s : SatData D) (snap : Snapshot) (d : IfaceData)
      → read_ifaces snap ≡ d ∷ []
      → 4294 < d.link_speed
      → d.link_speed < 2 ^ 16
      → (update_snapshot s snap).max_link_bps < fastest (read_ifaces snap)
  unfolding update_snapshot totals_from add_totals fastest
  fast_link_wraps s snap d one fast fits = rw one (ground arith)

  abbrev pub IsHistory : SatData D → Type 0
  IsHistory s =
      (length s.rx_history ≡ history_len)
      × (length s.tx_history ≡ history_len)
      × (s.history_head < history_len)
      × (s.history_count ≤ history_len)

  -- the rates kept, oldest first
  abbrev pub rx_rates : SatData D → List ℕ
  rx_rates s = contents 0 s.rx_history history_len s.history_head s.history_count

  abbrev pub tx_rates : SatData D → List ℕ
  tx_rates s = contents 0 s.tx_history history_len s.history_head s.history_count

  -- A snapshot adds the two total rates to the histories, which keep the last 60, oldest first.
  pub update_snapshot-IsHistory :
      (s : SatData D) (snap : Snapshot)
      → IsHistory s
      → let t = update_snapshot s snap in
        (rx_rates t ≡ last history_len (rx_rates s ++ t.total_rx_rate ∷ []))
        × (tx_rates t ≡ last history_len (tx_rates s ++ t.total_tx_rate ∷ []))
        × IsHistory t
  unfolding update_snapshot
  update_snapshot-IsHistory s snap h =
      let total = totals_from no_totals (read_ifaces snap) in
      (
        contents-push 0 s.rx_history history_len s.history_head s.history_count total.rx
            (omega (arith, h.0)) h.2 h.3,
        contents-push 0 s.tx_history history_len s.history_head s.history_count total.tx
            (omega (arith, h.1)) h.2 h.3,
        (
          length-set s.rx_history s.history_head total.rx ∙ h.0,
          length-set s.tx_history s.history_head total.tx ∙ h.1,
          omega arith,
          ground (arith, h.3),
        ),
      )

module _ {D : Type 0} where
  -- The display counts as connected, `elapsed` milliseconds after a frame and at the first check, exactly
  -- if that is at most 5 seconds. This holds when the 32-bit millisecond clock wraps in between.
  pub connected_iff :
      (s : SatData D) (frame_ms elapsed seq : ℕ)
      → frame_ms < 2 ^ 32
      → elapsed < 2 ^ 32
      → let t = check_connection (mark_alive s frame_ms seq) ((frame_ms + elapsed) % 2 ^ 32) in
        (t.connected ≡ true) ↔ (elapsed ≤ connection_timeout_ms)
  unfolding check_connection mark_alive
  connected_iff s frame_ms elapsed seq h k =
      let age : ((frame_ms + elapsed) % 2 ^ 32 + 2 ^ 32 - frame_ms) % 2 ^ 32 ≡ elapsed =
        omega arith in
      rw age (ground arith)
