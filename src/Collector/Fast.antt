-- ===== src/Collector/Fast.antt =====
-- `fast_timer_cb`. What it reads from the system is its argument: the texts of /proc/net/dev and
-- /proc/meminfo, the clock and the uptime.
use embedded_network_monitor.Prelude.{
  ℕ, zero, suc, ◌+◌, ◌-◌, ◌%◌, ◌^◌, true, ◌&&◌, Option, none, some, List, [], ◌∷◌, ◌++◌, ltb, leb,
  if◌then◌else◌, length, get_or, set, take, drop, Bytes,
}
use embedded_network_monitor.Prelude.Floating.{Floating}
use embedded_network_monitor.NetState.{max_interfaces, NetStats, NetRates, IfaceState}
use embedded_network_monitor.Collector.Proc.{parse_proc_net_dev, set_uptime, read_meminfo}
use embedded_network_monitor.Collector.State.{
  Track, Clock, Collector, short_len, long_len, find_iface, find_stats, modify,
}

-- the difference of two `uint64_t` wraps
abbrev pub delta : ℕ → ℕ → ℕ
delta cur prev = (cur + 2 ^ 64 - prev) % 2 ^ 64

unfoldable pub history_push : {D : Type 0} → ℕ → D → D → Track D → Track D
history_push capacity rx tx t = record {
  buf = set t.buf t.head (record { rx_bps = rx; tx_bps = tx });
  head = (t.head + 1) % capacity;
  count = if ltb t.count capacity then t.count + 1 else t.count;
}

-- `memcpy` of the current statistics over the previous ones
abbrev pub keep_stats : List NetStats → List NetStats → List NetStats
keep_stats curs prevs = curs ++ drop (length curs) prevs

module _ {D : Type 0} ⦃f : Floating D⦄ where
  -- seconds between two readings of the clock
  abbrev pub elapsed : Clock → Clock → D
  elapsed now prev =
      f.add (f.sub (f.of_ℕ now.sec) (f.of_ℕ prev.sec))
        (f.div (f.sub (f.of_ℕ now.nsec) (f.of_ℕ prev.nsec)) (f.of_ℕ 1000000000))

  abbrev pub rate : D → ℕ → ℕ → D
  rate dt cur prev = f.div (f.of_ℕ (delta cur prev)) dt

  unfoldable pub rates_of : D → NetStats → NetStats → NetRates D
  rates_of dt cur prev = record {
    rx_bytes_per_sec = rate dt cur.rx_bytes prev.rx_bytes;
    tx_bytes_per_sec = rate dt cur.tx_bytes prev.tx_bytes;
    rx_packets_per_sec = rate dt cur.rx_packets prev.rx_packets;
    tx_packets_per_sec = rate dt cur.tx_packets prev.tx_packets;
    rx_errors_per_sec = rate dt cur.rx_errors prev.rx_errors;
    tx_errors_per_sec = rate dt cur.tx_errors prev.tx_errors;
  }

  abbrev pub peak : D → D → D
  peak now old = if f.gtb now old then now else old

  -- rates, peaks and daily totals of an interface
  unfoldable pub update_iface : D → NetStats → NetStats → IfaceState D → IfaceState D
  unfolding rates_of
  update_iface dt cur prev st =
      let rates = rates_of dt cur prev in
      record st {
        rates = rates;
        peak_rx_bps = peak rates.rx_bytes_per_sec st.peak_rx_bps;
        peak_tx_bps = peak rates.tx_bytes_per_sec st.peak_tx_bps;
        rx_bytes_today = (st.rx_bytes_today + delta cur.rx_bytes prev.rx_bytes) % 2 ^ 64;
        tx_bytes_today = (st.tx_bytes_today + delta cur.tx_bytes prev.tx_bytes) % 2 ^ 64;
      }

  -- one statistics entry, with the index of its interface and its previous statistics, if any
  unfoldable pub update_found :
      D → NetStats → Option ℕ → Option NetStats → Collector D → Collector D
  unfolding update_iface history_push modify
  update_found dt cur none prev c = c
  update_found dt cur (some k) none c = c
  update_found dt cur (some k) (some prev) c =
      let rx = f.narrow (rate dt cur.rx_bytes prev.rx_bytes) in
      let tx = f.narrow (rate dt cur.tx_bytes prev.tx_bytes) in
      record c {
        net = record c.net { ifaces = modify c.net.ifaces k (update_iface dt cur prev) };
        short = modify c.short k (history_push short_len rx tx);
        minute_rx = modify c.minute_rx k (λ acc. f.narrow (f.add acc rx));
        minute_tx = modify c.minute_tx k (λ acc. f.narrow (f.add acc tx));
      }

  -- The previous statistics are searched as far as there are interfaces.
  unfoldable pub update_rates : D → List NetStats → Collector D → Collector D
  unfolding update_found find_iface find_stats
  update_rates dt [] c = c
  update_rates dt (cur ∷ curs) c = update_rates dt curs (
      update_found dt cur (find_iface c.net.ifaces cur.name)
        (find_stats (take (length c.net.ifaces) c.prev_stats) cur.name) c)

  -- the rates, if there are previous statistics and time has passed
  unfoldable pub rate_step : List NetStats → Clock → Collector D → Collector D
  unfolding update_rates
  rate_step curs now c =
      let dt = elapsed now c.prev_time in
      let rated = update_rates dt curs c in if c.prev_valid && f.gtb dt f.zero_d then rated else c

  -- the averages of the minute for the interfaces from `i` on, `n` of them
  unfoldable pub flush_minute : ℕ → ℕ → Collector D → Collector D
  unfolding history_push modify
  flush_minute zero i c = c
  flush_minute (suc n) i c = flush_minute n (suc i) (record c {
    long = modify c.long i (
        history_push long_len (f.narrow (f.div (get_or c.minute_rx i f.zero_d) (f.of_ℕ 60)))
          (f.narrow (f.div (get_or c.minute_tx i f.zero_d) (f.of_ℕ 60))));
    minute_rx = set c.minute_rx i f.zero_d;
    minute_tx = set c.minute_tx i f.zero_d;
  })

  unfoldable pub minute_step : Collector D → Collector D
  unfolding flush_minute
  minute_step c =
      let flushed = flush_minute (length c.net.ifaces) 0 c in
      if leb 60 (c.minute_count + 1)
      then record flushed { minute_count = 0 }
      else record c { minute_count = c.minute_count + 1 }

  unfoldable pub store_stats : List NetStats → List (IfaceState D) → List (IfaceState D)
  unfolding find_iface modify
  store_stats [] sts = sts
  store_stats (cur ∷ curs) sts = store_stats curs (elim (find_iface sts cur.name) [
    | none ↦ sts
    | some k ↦ modify sts k (λ st. record st { stats = cur })
  ])

  -- behind the system information
  unfoldable pub tick : List NetStats → Clock → Collector D → Collector D
  unfolding rate_step minute_step store_stats
  tick curs now c =
      let timed = minute_step (rate_step curs now c) in
      record timed {
        net = record timed.net { ifaces = store_stats curs timed.net.ifaces };
        prev_stats = keep_stats curs timed.prev_stats;
        prev_time = now;
        prev_valid = true;
      }

  unfoldable pub fast_timer :
      Option Bytes → Clock → Option ℕ → Option Bytes → Collector D → Collector D
  unfolding set_uptime tick read_meminfo parse_proc_net_dev
  fast_timer net_dev now uptime meminfo c =
      tick (parse_proc_net_dev net_dev max_interfaces) now
        (record c { net = read_meminfo meminfo (set_uptime uptime c.net) })
