-- ===== src/Collector/Rates.antt =====
-- What one tick of the fast timer puts into the short history of an interface.
use embedded_network_monitor.Prelude.{
  ℕ, zero, suc, ◌+◌, ◌<◌, ◌≡◌, refl, ap, ◌∙◌, inl, inr, ◌&&◌, Option, none, some, List, [], ◌∷◌,
  ◌++◌, append_assoc, arith, leb, ◌==◌, if◌then◌else◌, Bool-cases, Bytes, length, get_or, take,
}
use mathlib.Core.Path.{subst}
use embedded_network_monitor.Prelude.Floating.{Floating}
use embedded_network_monitor.Prelude.Window.{last, last-last-append}
use embedded_network_monitor.NetState.{max_interfaces, NetState, NetStats, HistorySample}
use embedded_network_monitor.Collector.State.{
  Clock, Collector, short_len, no_track, find_iface, find_stats,
}
use embedded_network_monitor.Collector.Proc.{
  fgets_from, set_uptime, parse_proc_net_dev, set_memory, read_mem_lines, read_meminfo,
}
use embedded_network_monitor.Collector.Fast.{
  elapsed, rate, history_push, update_iface, update_found, update_rates, rate_step, flush_minute,
  minute_step, tick, fast_timer,
}
use embedded_network_monitor.Collector.Lookup.{length-modify, find_iface-modify}
use embedded_network_monitor.Collector.History.{IsTrack, held, held_kept, row_pushed}

module _ {D : Type 0} where
  set_memory-ifaces :
      (total free available : Option ℕ) (net : NetState D)
      → (set_memory total free available net).ifaces ≡ net.ifaces
  unfolding set_memory
  set_memory-ifaces (some v) free available net = refl
  set_memory-ifaces none (some v) available net = refl
  set_memory-ifaces none none (some v) net = refl
  set_memory-ifaces none none none net = refl

  read_mem_lines-ifaces :
      (lines : List Bytes) (net : NetState D) → (read_mem_lines lines net).ifaces ≡ net.ifaces
  unfolding read_mem_lines
  read_mem_lines-ifaces [] net = refl
  read_mem_lines-ifaces (line ∷ lines) net =
      read_mem_lines-ifaces lines _ ∙ set_memory-ifaces _ _ _ net

  -- Reading the system information leaves the interfaces as they are.
  pub read_meminfo-ifaces :
      (file : Option Bytes) (net : NetState D) → (read_meminfo file net).ifaces ≡ net.ifaces
  unfolding read_meminfo
  read_meminfo-ifaces none net = refl
  read_meminfo-ifaces (some file) net = read_mem_lines-ifaces (fgets_from 128 127 [] file) net

  pub set_uptime-ifaces :
      (uptime : Option ℕ) (net : NetState D) → (set_uptime uptime net).ifaces ≡ net.ifaces
  unfolding set_uptime
  set_uptime-ifaces none net = refl
  set_uptime-ifaces (some v) net = refl

module _ {D : Type 0} ⦃f : Floating D⦄ where
  -- The samples that statistics give for interface `k`: one, if they are those of this interface and
  -- there are previous ones.
  unfoldable pub sample_found :
      D → ℕ → NetStats → Option ℕ → Option NetStats → List (HistorySample D)
  sample_found dt k cur none prev = []
  sample_found dt k cur (some i) none = []
  sample_found dt k cur (some i) (some prev) =
      if i == k
      then record {
        rx_bps = f.narrow (rate dt cur.rx_bytes prev.rx_bytes);
        tx_bps = f.narrow (rate dt cur.tx_bytes prev.tx_bytes);
      }
        ∷ []
      else []

  unfoldable pub samples :
      D
      → ℕ
      → (Bytes → Option ℕ)
      → (Bytes → Option NetStats)
      → List NetStats
      → List (HistorySample D)
  samples dt k iface prev [] = []
  samples dt k iface prev (cur ∷ curs) =
      sample_found dt k cur (iface cur.name) (prev cur.name) ++ samples dt k iface prev curs

  samples-congr :
      (dt : D) (k : ℕ) (iface iface₁ : Bytes → Option ℕ) (prev prev₁ : Bytes → Option NetStats)
      (curs : List NetStats)
      → ((n : Bytes) → iface n ≡ iface₁ n)
      → ((n : Bytes) → prev n ≡ prev₁ n)
      → samples dt k iface prev curs ≡ samples dt k iface₁ prev₁ curs
  unfolding samples
  samples-congr dt k iface iface₁ prev prev₁ [] e e₁ = refl
  samples-congr dt k iface iface₁ prev prev₁ (cur ∷ curs) e e₁ =
      rw (e cur.name, e₁ cur.name)
        (ap (λ ss. sample_found dt k cur (iface₁ cur.name) (prev₁ cur.name) ++ ss)
          (samples-congr dt k iface iface₁ prev prev₁ curs e e₁))

  abbrev pub prevs : Collector D → Bytes → Option NetStats
  prevs c name = find_stats (take (length c.net.ifaces) c.prev_stats) name

  -- Row `k` has grown by the samples `es`, and names are found where they were.
  record Grows (k : ℕ) (c t : Collector D) (es : List (HistorySample D)) : Type 0 where
    same_find : (n : Bytes) → find_iface t.net.ifaces n ≡ find_iface c.net.ifaces n
    same_prev : (n : Bytes) → prevs t n ≡ prevs c n
    same_size : length t.short ≡ length c.short
    valid : IsTrack short_len (get_or t.short k no_track)
    grown :
        held short_len (get_or t.short k no_track)
        ≡ last short_len (held short_len (get_or c.short k no_track) ++ es)

  Grows-none :
      (k : ℕ) (c : Collector D) → IsTrack short_len (get_or c.short k no_track) → Grows k c c []
  Grows-none k c h = record {
    same_find = λ n. refl;
    same_prev = λ n. refl;
    same_size = refl;
    valid = h;
    grown = held_kept short_len (get_or c.short k no_track) h;
  }

  Grows-append :
      (k : ℕ) (c t u : Collector D) (es es₁ : List (HistorySample D))
      → Grows k c t es
      → Grows k t u es₁
      → Grows k c u (es ++ es₁)
  Grows-append k c t u es es₁ g h = record {
    same_find = λ n. h.same_find n ∙ g.same_find n;
    same_prev = λ n. h.same_prev n ∙ g.same_prev n;
    same_size = h.same_size ∙ g.same_size;
    valid = h.valid;
    grown =
        h.grown
        ∙ ap (λ l. last short_len (l ++ es₁)) g.grown
        ∙ last-last-append short_len (held short_len (get_or c.short k no_track) ++ es) es₁
        ∙ ap (last short_len) (append_assoc (held short_len (get_or c.short k no_track)) es es₁);
  }

  update_found-Grows :
      (dt : D) (cur : NetStats) (i : Option ℕ) (prev : Option NetStats) (k : ℕ) (c : Collector D)
      → k < length c.short
      → IsTrack short_len (get_or c.short k no_track)
      → Grows k c (update_found dt cur i prev c) (sample_found dt k cur i prev)
  unfolding update_found sample_found update_iface
  update_found-Grows dt cur none prev k c lt h = Grows-none k c h
  update_found-Grows dt cur (some i) none k c lt h = Grows-none k c h
  update_found-Grows dt cur (some i) (some prev) k c lt h =
      let rx = f.narrow (rate dt cur.rx_bytes prev.rx_bytes) in
      let tx = f.narrow (rate dt cur.tx_bytes prev.tx_bytes) in
      let (valid, grown) = row_pushed c.short i k short_len rx tx lt h in
      record {
        same_find = λ n. find_iface-modify c.net.ifaces i (update_iface dt cur prev) n (λ st. refl);
        same_prev = λ n.
            ap (λ l. find_stats (take l c.prev_stats) n)
              (length-modify c.net.ifaces i (update_iface dt cur prev));
        same_size = length-modify c.short i (history_push short_len rx tx);
        valid = valid;
        grown = grown;
      }

  update_rates-Grows :
      (dt : D) (curs : List NetStats) (k : ℕ) (c : Collector D)
      → k < length c.short
      → IsTrack short_len (get_or c.short k no_track)
      → Grows k c (update_rates dt curs c) (samples dt k (find_iface c.net.ifaces) (prevs c) curs)
  unfolding update_rates samples
  update_rates-Grows dt [] k c lt h = Grows-none k c h
  update_rates-Grows dt (cur ∷ curs) k c lt h =
      let i = find_iface c.net.ifaces cur.name in
      let one = update_found-Grows dt cur i (prevs c cur.name) k c lt h in
      let t = update_found dt cur i (prevs c cur.name) c in
      let rest = update_rates-Grows dt curs k t (omega (arith, one.same_size)) one.valid in
      Grows-append k c t (update_rates dt curs t) _ _ one (
        subst (Grows k t (update_rates dt curs t))
          (samples-congr dt k (find_iface t.net.ifaces) (find_iface c.net.ifaces) (prevs t)
            (prevs c) curs one.same_find one.same_prev)
          rest)

  rate_step-Grows :
      (curs : List NetStats) (now : Clock) (k : ℕ) (c : Collector D)
      → k < length c.short
      → IsTrack short_len (get_or c.short k no_track)
      → let dt : D = elapsed now c.prev_time in
        Grows k c (rate_step curs now c) (
          if c.prev_valid && f.gtb dt f.zero_d
          then samples dt k (find_iface c.net.ifaces) (prevs c) curs
          else [])
  unfolding rate_step
  rate_step-Grows curs now k c lt h =
      let dt : D = elapsed now c.prev_time in
      elim (Bool-cases (c.prev_valid && f.gtb dt f.zero_d)) [
        | inl e ↦ rw e (update_rates-Grows dt curs k c lt h)
        | inr e ↦ rw e (Grows-none k c h)
      ]

  flush_minute-short : (n i : ℕ) (c : Collector D) → (flush_minute n i c).short ≡ c.short
  unfolding flush_minute
  flush_minute-short zero i c = refl
  flush_minute-short (suc n) i c = flush_minute-short n (suc i) _

  minute_step-short : (c : Collector D) → (minute_step c).short ≡ c.short
  unfolding minute_step
  minute_step-short c = elim (Bool-cases (leb 60 (c.minute_count + 1))) [
    | inl e ↦ rw e (flush_minute-short (length c.net.ifaces) 0 c)
    | inr e ↦ rw e refl
  ]

  -- One tick of the fast timer appends to the short history of every interface the rates of its
  -- statistics, computed in `double` from the previous ones and the time between and then narrowed to
  -- `float`; the last 60 are kept, oldest first. It appends nothing at the first tick, when no time has passed, for an interface without
  -- statistics, and for one without previous statistics among the first `num_ifaces`.
  pub held-fast_timer :
      (net_dev : Option Bytes) (now : Clock) (uptime : Option ℕ) (meminfo : Option Bytes) (k : ℕ)
      (c : Collector D)
      → k < length c.short
      → IsTrack short_len (get_or c.short k no_track)
      → let dt : D = elapsed now c.prev_time in
        let row = get_or (fast_timer net_dev now uptime meminfo c).short k no_track in
        IsTrack short_len row
        × (held short_len row
            ≡ last short_len (
                held short_len (get_or c.short k no_track)
                ++ (if c.prev_valid && f.gtb dt f.zero_d
                    then samples dt k
                        (find_iface c.net.ifaces)
                        (prevs c)
                        (parse_proc_net_dev net_dev max_interfaces)
                    else [])))
  unfolding fast_timer tick
  held-fast_timer net_dev now uptime meminfo k c lt h =
      let start = record c { net = read_meminfo meminfo (set_uptime uptime c.net) } in
      let curs = parse_proc_net_dev net_dev max_interfaces in
      let dt : D = elapsed now c.prev_time in
      let same : start.net.ifaces ≡ c.net.ifaces =
        read_meminfo-ifaces meminfo (set_uptime uptime c.net) ∙ set_uptime-ifaces uptime c.net in
      let looked_up =
        samples-congr dt k (find_iface start.net.ifaces) (find_iface c.net.ifaces) (prevs start)
          (prevs c) curs (λ n. ap (λ sts. find_iface sts n) same)
          (λ n. ap (λ sts. find_stats (take (length sts) c.prev_stats) n) same) in
      let g = rate_step-Grows curs now k start lt h in
      rw (minute_step-short (rate_step curs now start)) (
        g.valid,
        g.grown
            ∙ ap
                (λ ss. last short_len (
                  held short_len (get_or c.short k no_track)
                  ++ (if c.prev_valid && f.gtb dt f.zero_d then ss else [])))
                looked_up,
      )
