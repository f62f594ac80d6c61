-- ===== src/Collector/Kept.antt =====
-- The part of the state of the collector that the timers leave in its arrays.
use embedded_network_monitor.Prelude.{
  ℕ, zero, suc, ◌<◌, ◌≡◌, refl, sym, ap, ◌∙◌, inl, inr, ◌&&◌, Option, none, some, List, [], ◌∷◌,
  arith, Bool-cases, Bytes, length, All, length-set,
}
use embedded_network_monitor.Collector.State.{Collector, modify, short_len, long_len, Clock}
use embedded_network_monitor.Prelude.Floating.{Floating}
use embedded_network_monitor.Collector.Merge.{IsCounted}
use embedded_network_monitor.Collector.History.{IsTrack, history_push-IsTrack}
use embedded_network_monitor.Collector.Fast.{
  update_found, update_rates, rate_step, flush_minute, elapsed,
}
use embedded_network_monitor.NetState.{NetStats, max_interfaces, NetState}
use embedded_network_monitor.Collector.Lookup.{length-modify}
use embedded_network_monitor.Collector.Proc.{
  set_memory, read_mem_lines, read_meminfo, set_uptime, fgets_from,
}
use embedded_network_monitor.Prelude.Int.{pos}

-- Each array has its 8 rows, each history row is in order, and the interfaces fit and are counted.
pub record IsOk {D : Type 0} (c : Collector D) : Type 0 where
  pub counted : IsCounted c
  pub short_size : length c.short ≡ max_interfaces
  pub short_rows : All (IsTrack short_len) c.short
  pub long_size : length c.long ≡ max_interfaces
  pub long_rows : All (IsTrack long_len) c.long
  pub rx_size : length c.minute_rx ≡ max_interfaces
  pub tx_size : length c.minute_tx ≡ max_interfaces
  pub minute_in : c.minute_count < 60

pub All-modify {ℓ κ} :
    {A : Type ℓ} (P : A → Type κ) (xs : List A) (k : ℕ) (g : A → A)
    → ((x : A) → P x → P (g x))
    → All P xs
    → All P (modify xs k g)
unfolding modify
All-modify P [] k g keeps h = tt
All-modify P (x ∷ xs) zero g keeps h = (keeps x h.0, h.1)
All-modify P (x ∷ xs) (suc k) g keeps h = (h.0, All-modify P xs k g keeps h.1)

module _ {D : Type 0} where
  set_memory-count :
      (total free available : Option ℕ) (net : NetState D)
      → (set_memory total free available net).num_ifaces ≡ net.num_ifaces
  unfolding set_memory
  set_memory-count (some v) free available net = refl
  set_memory-count none (some v) available net = refl
  set_memory-count none none (some v) net = refl
  set_memory-count none none none net = refl

  read_mem_lines-count :
      (lines : List Bytes) (net : NetState D)
      → (read_mem_lines lines net).num_ifaces ≡ net.num_ifaces
  unfolding read_mem_lines
  read_mem_lines-count [] net = refl
  read_mem_lines-count (line ∷ lines) net =
      read_mem_lines-count lines _ ∙ set_memory-count _ _ _ net

  pub read_meminfo-count :
      (file : Option Bytes) (net : NetState D) → (read_meminfo file net).num_ifaces ≡ net.num_ifaces
  unfolding read_meminfo
  read_meminfo-count none net = refl
  read_meminfo-count (some file) net = read_mem_lines-count (fgets_from 128 127 [] file) net

  pub set_uptime-count :
      (uptime : Option ℕ) (net : NetState D) → (set_uptime uptime net).num_ifaces ≡ net.num_ifaces
  unfolding set_uptime
  set_uptime-count none net = refl
  set_uptime-count (some v) net = refl

module _ {D : Type 0} ⦃f : Floating D⦄ where
  -- the part of the state that the histories and the minute averages are
  pub record IsKept (c t : Collector D) : Type 0 where
    pub short_size : length t.short ≡ length c.short
    pub short_rows : All (IsTrack short_len) c.short → All (IsTrack short_len) t.short
    pub long_size : length t.long ≡ length c.long
    pub long_rows : All (IsTrack long_len) c.long → All (IsTrack long_len) t.long
    pub rx_size : length t.minute_rx ≡ length c.minute_rx
    pub tx_size : length t.minute_tx ≡ length c.minute_tx
    pub same_count : t.net.num_ifaces ≡ c.net.num_ifaces
    pub same_ifaces : length t.net.ifaces ≡ length c.net.ifaces

  IsKept-refl : (c : Collector D) → IsKept c c
  IsKept-refl c = record {
    short_size = refl;
    short_rows = λ h. h;
    long_size = refl;
    long_rows = λ h. h;
    rx_size = refl;
    tx_size = refl;
    same_count = refl;
    same_ifaces = refl;
  }

  IsKept-trans : (c t u : Collector D) → IsKept c t → IsKept t u → IsKept c u
  IsKept-trans c t u p q = record {
    short_size = q.short_size ∙ p.short_size;
    short_rows = λ h. q.short_rows (p.short_rows h);
    long_size = q.long_size ∙ p.long_size;
    long_rows = λ h. q.long_rows (p.long_rows h);
    rx_size = q.rx_size ∙ p.rx_size;
    tx_size = q.tx_size ∙ p.tx_size;
    same_count = q.same_count ∙ p.same_count;
    same_ifaces = q.same_ifaces ∙ p.same_ifaces;
  }

  update_found-IsKept :
      (dt : D) (cur : NetStats) (k : Option ℕ) (prev : Option NetStats) (c : Collector D)
      → IsKept c (update_found dt cur k prev c)
  unfolding update_found
  update_found-IsKept dt cur none prev c = IsKept-refl c
  update_found-IsKept dt cur (some k) none c = IsKept-refl c
  update_found-IsKept dt cur (some k) (some prev) c = record {
    short_size = length-modify c.short k _;
    short_rows = All-modify (IsTrack short_len) c.short k _ (history_push-IsTrack short_len _ _);
    long_size = refl;
    long_rows = λ h. h;
    rx_size = length-modify c.minute_rx k _;
    tx_size = length-modify c.minute_tx k _;
    same_count = refl;
    same_ifaces = length-modify c.net.ifaces k _;
  }

  update_rates-IsKept :
      (dt : D) (curs : List NetStats) (c : Collector D) → IsKept c (update_rates dt curs c)
  unfolding update_rates
  update_rates-IsKept dt [] c = IsKept-refl c
  update_rates-IsKept dt (cur ∷ curs) c =
      IsKept-trans c _ _ (update_found-IsKept dt cur _ _ c) (update_rates-IsKept dt curs _)

  pub rate_step-IsKept :
      (curs : List NetStats) (now : Clock) (c : Collector D) → IsKept c (rate_step curs now c)
  unfolding rate_step
  rate_step-IsKept curs now c =
      elim (Bool-cases (c.prev_valid && f.gtb (elapsed now c.prev_time) f.zero_d)) [
        | inl e ↦ rw e (update_rates-IsKept (elapsed now c.prev_time) curs c)
        | inr e ↦ rw e (IsKept-refl c)
      ]

  pub flush_minute-IsKept : (n i : ℕ) (c : Collector D) → IsKept c (flush_minute n i c)
  unfolding flush_minute
  flush_minute-IsKept zero i c = IsKept-refl c
  flush_minute-IsKept (suc n) i c =
      let first : IsKept c _ = record {
        short_size = refl;
        short_rows = λ h. h;
        long_size = length-modify c.long i _;
        long_rows = All-modify (IsTrack long_len) c.long i _ (history_push-IsTrack long_len _ _);
        rx_size = length-set c.minute_rx i f.zero_d;
        tx_size = length-set c.minute_tx i f.zero_d;
        same_count = refl;
        same_ifaces = refl;
      } in
      IsKept-trans c _ _ first (flush_minute-IsKept n (suc i) _)

  pub IsOk-IsKept : (c t : Collector D) → IsOk c → IsKept c t → t.minute_count < 60 → IsOk t
  IsOk-IsKept c t h k m = record {
    counted = record {
      counted = k.same_count ∙ h.counted.counted ∙ ap pos (sym k.same_ifaces);
      fits = omega (arith, k.same_ifaces, h.counted.fits);
    };
    short_size = k.short_size ∙ h.short_size;
    short_rows = k.short_rows h.short_rows;
    long_size = k.long_size ∙ h.long_size;
    long_rows = k.long_rows h.long_rows;
    rx_size = k.rx_size ∙ h.rx_size;
    tx_size = k.tx_size ∙ h.tx_size;
    minute_in = m;
  }
