-- ===== src/Collector/Invariant.antt =====
-- What holds of the arrays of the collector between two timers.
use mathlib.Core.Path.{subst}
use embedded_network_monitor.Prelude.{
  ℕ, suc, ◌+◌, ◌≡◌, refl, sym, ap, ◌∙◌, inl, inr, ◌&&◌, Option, none, some, List, [], ◌∷◌, arith,
  ltb, leb, Bool-cases, Option-cases, Bytes, length, All,
}
use embedded_network_monitor.Collector.State.{Collector, short_len, long_len, Clock, find_iface}
use embedded_network_monitor.Prelude.Floating.{Floating}
use embedded_network_monitor.Collector.Merge.{length-store_stats, slow_timer-IsCounted}
use embedded_network_monitor.Collector.History.{IsTrack}
use embedded_network_monitor.Collector.Fast.{
  update_found, update_rates, rate_step, elapsed, minute_step, tick, fast_timer,
}
use embedded_network_monitor.NetState.{
  NetStats, max_interfaces, NetState, WifiInfo, IfaceInfo, IfaceState, Connection, ArpEntry,
  WanDiscovery,
}
use embedded_network_monitor.Collector.Proc.{read_meminfo, set_uptime}
use embedded_network_monitor.Collector.Medium.{read_wifi, collect, infra_step, Probe}
use embedded_network_monitor.Collector.Slow.{
  add_iface, merge_found, merge, probes, slow_timer, merge_one, probe_dns, wan_step, listed,
}
use embedded_network_monitor.Collector.Rates.{read_meminfo-ifaces, set_uptime-ifaces}
use embedded_network_monitor.Prelude.Int.{ℤ, pos, negsuc}
use embedded_network_monitor.Collector.Kept.{
  IsOk, read_meminfo-count, set_uptime-count, rate_step-IsKept, flush_minute-IsKept, IsOk-IsKept,
}

module _ {D : Type 0} ⦃f : Floating D⦄ where
  update_found-minute :
      (dt : D) (cur : NetStats) (k : Option ℕ) (prev : Option NetStats) (c : Collector D)
      → (update_found dt cur k prev c).minute_count ≡ c.minute_count
  unfolding update_found
  update_found-minute dt cur none prev c = refl
  update_found-minute dt cur (some k) none c = refl
  update_found-minute dt cur (some k) (some prev) c = refl

  update_rates-minute :
      (dt : D) (curs : List NetStats) (c : Collector D)
      → (update_rates dt curs c).minute_count ≡ c.minute_count
  unfolding update_rates
  update_rates-minute dt [] c = refl
  update_rates-minute dt (cur ∷ curs) c =
      update_rates-minute dt curs _
      ∙ update_found-minute dt cur (find_iface c.net.ifaces cur.name) _ c

  rate_step-minute :
      (curs : List NetStats) (now : Clock) (c : Collector D)
      → (rate_step curs now c).minute_count ≡ c.minute_count
  unfolding rate_step
  rate_step-minute curs now c =
      elim (Bool-cases (c.prev_valid && f.gtb (elapsed now c.prev_time) f.zero_d)) [
        | inl e ↦ rw e (update_rates-minute (elapsed now c.prev_time) curs c)
        | inr e ↦ rw e refl
      ]

  minute_step-IsOk : (c : Collector D) → IsOk c → IsOk (minute_step c)
  unfolding minute_step
  minute_step-IsOk c h = elim (Bool-cases (leb 60 (c.minute_count + 1))) [
    | inl e ↦
        let k = flush_minute-IsKept (length c.net.ifaces) 0 c in
        rw e (
          IsOk-IsKept c _ h
            (record {
              short_size = k.short_size;
              short_rows = k.short_rows;
              long_size = k.long_size;
              long_rows = k.long_rows;
              rx_size = k.rx_size;
              tx_size = k.tx_size;
              same_count = k.same_count;
              same_ifaces = k.same_ifaces;
            })
            (omega arith))
    | inr e ↦ rw e (
        IsOk-IsKept c _ h
          (record {
            short_size = refl;
            short_rows = λ r. r;
            long_size = refl;
            long_rows = λ r. r;
            rx_size = refl;
            tx_size = refl;
            same_count = refl;
            same_ifaces = refl;
          })
          (ground arith))
  ]

  tick-IsOk :
      (curs : List NetStats) (now : Clock) (c : Collector D) → IsOk c → IsOk (tick curs now c)
  unfolding tick
  tick-IsOk curs now c h =
      let r = rate_step-IsKept curs now c in
      let rated =
        IsOk-IsKept c (rate_step curs now c) h r
          (omega (arith, rate_step-minute curs now c, h.minute_in)) in
      let t = minute_step-IsOk (rate_step curs now c) rated in
      let timed = minute_step (rate_step curs now c) in
      IsOk-IsKept timed _ t
        (record {
          short_size = refl;
          short_rows = λ x. x;
          long_size = refl;
          long_rows = λ x. x;
          rx_size = refl;
          tx_size = refl;
          same_count = refl;
          same_ifaces = length-store_stats curs timed.net.ifaces;
        })
        t.minute_in

  -- New system information, connectivity and wireless readings keep the interfaces.
  IsOk-net :
      (c : Collector D) (net : NetState D)
      → IsOk c
      → net.num_ifaces ≡ c.net.num_ifaces
      → length net.ifaces ≡ length c.net.ifaces
      → IsOk (record c { net = net })
  IsOk-net c net h count same =
      IsOk-IsKept c _ h
        (record {
          short_size = refl;
          short_rows = λ x. x;
          long_size = refl;
          long_rows = λ x. x;
          rx_size = refl;
          tx_size = refl;
          same_count = count;
          same_ifaces = same;
        })
        h.minute_in

  -- A tick of the fast timer, whatever it reads, leaves the arrays in order.
  pub fast_timer-IsOk :
      (net_dev : Option Bytes) (now : Clock) (uptime : Option ℕ) (meminfo : Option Bytes)
      (c : Collector D)
      → IsOk c
      → IsOk (fast_timer net_dev now uptime meminfo c)
  unfolding fast_timer
  fast_timer-IsOk net_dev now uptime meminfo c h = tick-IsOk _ now _ (
      IsOk-net c (read_meminfo meminfo (set_uptime uptime c.net)) h
        (read_meminfo-count meminfo _ ∙ set_uptime-count uptime c.net)
        (ap length (read_meminfo-ifaces meminfo _ ∙ set_uptime-ifaces uptime c.net)))

  pub length-read_wifi :
      (wifi : Bytes → WifiInfo D → WifiInfo D) (sts : List (IfaceState D))
      → length (read_wifi wifi sts) ≡ length sts
  unfolding read_wifi
  length-read_wifi wifi [] = refl
  length-read_wifi wifi (st ∷ sts) = ap suc (length-read_wifi wifi sts)

  -- A tick of the medium timer does.
  pub collect-IsOk :
      (ping : Bytes → ℕ → Probe D) (connections : List Connection)
      (wifi : Bytes → WifiInfo D → WifiInfo D) (c : Collector D)
      → IsOk c
      → IsOk (collect ping connections wifi c)
  unfolding collect infra_step
  collect-IsOk ping connections wifi c h =
      IsOk-IsKept c _ h
        (record {
          short_size = refl;
          short_rows = λ x. x;
          long_size = refl;
          long_rows = λ x. x;
          rx_size = refl;
          tx_size = refl;
          same_count = refl;
          same_ifaces = length-read_wifi wifi c.net.ifaces;
        })
        h.minute_in

  -- The merge of an enumeration changes nothing but the interfaces.
  abbrev Beside : Collector D → Option (Collector D) → Type 0
  Beside c none = Unit
  Beside c (some t) =
      (t.short ≡ c.short)
      × (t.long ≡ c.long)
      × (t.minute_rx ≡ c.minute_rx)
      × (t.minute_tx ≡ c.minute_tx)
      × (t.minute_count ≡ c.minute_count)

  Beside-trans :
      (c t : Collector D) (o : Option (Collector D)) → Beside c (some t) → Beside t o → Beside c o
  Beside-trans c t none p q = tt
  Beside-trans c t (some u) p q = (q.0 ∙ p.0, q.1 ∙ p.1, q.2 ∙ p.2, q.3 ∙ p.3, q.4 ∙ p.4)

  add_iface-Beside : (n : ℤ) (info : IfaceInfo) (c : Collector D) → Beside c (add_iface n info c)
  unfolding add_iface
  add_iface-Beside (negsuc n) info c = tt
  add_iface-Beside (pos n) info c = elim (Bool-cases (ltb n max_interfaces)) [
    | inl e ↦ rw e (refl, refl, refl, refl, refl)
    | inr e ↦ rw e (refl, refl, refl, refl, refl)
  ]

  merge_found-Beside :
      (o : Option ℕ) (info : IfaceInfo) (c : Collector D) → Beside c (merge_found o info c)
  unfolding merge_found
  merge_found-Beside none info c = add_iface-Beside c.net.num_ifaces info c
  merge_found-Beside (some k) info c = (refl, refl, refl, refl, refl)

  merge-Beside : (infos : List IfaceInfo) (c : Collector D) → Beside c (merge infos c)
  unfolding merge merge_one
  merge-Beside [] c = (refl, refl, refl, refl, refl)
  merge-Beside (info ∷ infos) c =
      let next : Option (Collector D) → Option (Collector D) =
        λ o. elim o [ none ↦ none | some t ↦ merge infos t ] in
      elim (Option-cases (merge_found (find_iface c.net.ifaces info.name) info c)) [
        | inl e ↦ subst (Beside c) (sym (ap next e)) tt
        | inr (t, e) ↦ subst (Beside c) (sym (ap next e)) (
            Beside-trans c t (merge infos t)
              (subst (Beside c) e (merge_found-Beside (find_iface c.net.ifaces info.name) info c))
              (merge-Beside infos t))
      ]

  probes-Beside :
      (dns : Bytes → Bytes → ℕ → Probe D) (arp : List ArpEntry)
      (trace quality : Bytes → WanDiscovery D → WanDiscovery D) (c : Collector D)
      (o : Option (Collector D))
      → Beside c o
      → Beside c (probes dns arp trace quality o)
  unfolding probes probe_dns wan_step
  probes-Beside dns arp trace quality c none h = tt
  probes-Beside dns arp trace quality c (some t) h = elim (Bool-cases (leb 2 (t.wan_tick + 1))) [
    | inl e ↦ rw e h
    | inr e ↦ rw e h
  ]

  -- A tick of the slow timer, whatever the enumeration returns, has an outcome in which they are.
  pub slow_timer-IsOk :
      (infos : Option (List IfaceInfo)) (dns : Bytes → Bytes → ℕ → Probe D) (arp : List ArpEntry)
      (trace quality : Bytes → WanDiscovery D → WanDiscovery D) (c : Collector D)
      → IsOk c
      → (t : Collector D) × (slow_timer infos dns arp trace quality c ≡ some t) × IsOk t
  unfolding slow_timer
  slow_timer-IsOk infos dns arp trace quality c h =
      let (t, e, counted, keeps) = slow_timer-IsCounted infos dns arp trace quality c h.counted in
      let (short, long, rx, tx, minute) : Beside c (some t) = subst (Beside c) e (
        probes-Beside dns arp trace quality c (merge (listed infos) c)
          (merge-Beside (listed infos) c)) in
      (
        t,
        e,
        record {
          counted = counted;
          short_size = ap length short ∙ h.short_size;
          short_rows = subst (All (IsTrack short_len)) (sym short) h.short_rows;
          long_size = ap length long ∙ h.long_size;
          long_rows = subst (All (IsTrack long_len)) (sym long) h.long_rows;
          rx_size = ap length rx ∙ h.rx_size;
          tx_size = ap length tx ∙ h.tx_size;
          minute_in = omega (arith, minute, h.minute_in);
        },
      )
