-- ===== src/DataStore/Saved.antt =====
-- What core/data_store.c saves, and what it loads of it.
use embedded_network_monitor.Prelude.{
  ℕ, zero, suc, ◌+◌, ◌-◌, ◌≤◌, ◌<◌, ◌≡◌, refl, sym, ap, ◌∙◌, inl, inr, true, Option, some, List, [],
  ◌∷◌, arith, ltb, Bool-cases, Bytes, length, get_elem?, get_or, take_all,
}
use mathlib.Core.Option.{some_inj}
use embedded_network_monitor.Prelude.Int.{pos}
use embedded_network_monitor.Prelude.Floating.{Floating}
use embedded_network_monitor.NetState.{IfaceState, max_interfaces}
use embedded_network_monitor.Collector.State.{Collector, Track, no_track, long_len}
use embedded_network_monitor.Collector.History.{held}
use embedded_network_monitor.Collector.Kept.{IsOk}
use embedded_network_monitor.DataStore.{
  Stored, HistoryFile, loaded, loading, get_history, read_records, load_records, data_store_load,
  stored_of, stored_from, history_file, data_store_save, store_magic, store_version,
}

ltb_lt : {a b : ℕ} → a < b → ltb a b ≡ true
ltb_lt h = ground (arith, h)

module _ {D : Type 0} ⦃f : Floating D⦄ where
  length-stored_from :
      (garbage : ℕ) (rows : List (Track D)) (i : ℕ) (ifaces : List (IfaceState D))
      → length (stored_from garbage rows i ifaces) ≡ length ifaces
  unfolding stored_from
  length-stored_from garbage rows i [] = refl
  length-stored_from garbage rows i (is ∷ ifaces) =
      ap suc (length-stored_from garbage rows (i + 1) ifaces)

  read_records-all :
      (i : ℕ) (records : List (Stored D)) → read_records (length records) i records ≡ []
  unfolding read_records
  read_records-all i [] = refl
  read_records-all i (r ∷ records) = read_records-all (i + 1) records

  get_history-some :
      (rows : List (Track D)) (i : ℕ)
      → i < max_interfaces
      → get_history rows i ≡ some (get_or rows i no_track)
  unfolding get_history
  get_history-some rows i h = rw (ltb_lt h) refl

  held-stored_of :
      (garbage : ℕ) (name : Bytes) (t : Track D)
      → held long_len (stored_of garbage name (some t)).track ≡ held long_len t
  unfolding stored_of held
  held-stored_of garbage name t = elim (Bool-cases (ltb 0 t.count)) [
    | inl e ↦ rw e refl
    | inr e ↦ let none_held : t.count ≡ 0 = ground (arith, e) in rw (e, none_held) refl
  ]

  held-stored_from :
      (garbage : ℕ) (rows : List (Track D)) (i k : ℕ) (ifaces : List (IfaceState D)) (r : Stored D)
      → i + length ifaces ≤ max_interfaces
      → get_elem? (stored_from garbage rows i ifaces) k ≡ some r
      → held long_len r.track ≡ held long_len (get_or rows (i + k) no_track)
  unfolding stored_from
  held-stored_from garbage rows i k [] r h e = absurd (ground (arith, e))
  held-stored_from garbage rows i zero (is ∷ ifaces) r h e =
      let track = get_or rows i no_track in
      let there : get_history rows i ≡ some track = get_history-some rows i (omega arith) in
      let first : stored_of garbage is.info.name (some track) ≡ r =
        sym (ap (stored_of garbage is.info.name) there) ∙ some_inj.0 e in
      sym (ap (λ s. held long_len s.track) first)
      ∙ held-stored_of garbage is.info.name track
      ∙ ap (λ j. held long_len (get_or rows j no_track)) (omega arith)
  held-stored_from garbage rows i (suc k) (is ∷ ifaces) r h e =
      held-stored_from garbage rows (i + 1) k ifaces r (omega arith) e
      ∙ ap (λ j. held long_len (get_or rows j no_track)) (omega arith)

  save-pos :
      (garbage n : ℕ) (c : Collector D) (old : Option (HistoryFile D))
      → c.net.num_ifaces ≡ pos (suc n)
      → data_store_save garbage true c old ≡ some (history_file garbage c)
  unfolding data_store_save
  save-pos garbage n c old h = rw h refl

  -- What is saved of a collector with interfaces, between any two timers, loads without complaint, and
  -- its records hold the samples of the long histories.
  pub data_store_load-save :
      (garbage : ℕ) (c : Collector D) (old : Option (HistoryFile D))
      → IsOk c
      → 0 < length c.net.ifaces
      → let n = length c.net.ifaces in
        (file : HistoryFile D) × (data_store_save garbage true c old ≡ some file)
        × (data_store_load (some file) ≡ loading (pos n) ∷ loaded ∷ [])
        × (length file.records ≡ n)
        × ((k : ℕ) (r : Stored D)
            → get_elem? file.records k ≡ some r
            → held long_len r.track ≡ held long_len (get_or c.long k no_track))
  unfolding data_store_load load_records
  data_store_load-save garbage c old h some_ifaces =
      let n = length c.net.ifaces in
      let saved = stored_from garbage c.long 0 c.net.ifaces in
      let file : HistoryFile D = record {
        header = some (record { magic = store_magic; version = store_version; num_ifaces = pos n });
        records = saved;
      } in
      let counted : c.net.num_ifaces ≡ pos n = h.counted.counted in
      let positive : c.net.num_ifaces ≡ pos (suc (n - 1)) = counted ∙ ap pos (omega arith) in
      let same : history_file garbage c ≡ file =
        unfold history_file in rw (counted, take_all n c.net.ifaces (omega arith)) refl in
      let size : length saved ≡ n = length-stored_from garbage c.long 0 c.net.ifaces in
      let all : read_records n 0 saved ≡ [] =
        ap (λ k. read_records k 0 saved) (sym size) ∙ read_records-all 0 saved in
      (
        file,
        save-pos garbage (n - 1) c old positive ∙ ap some same,
        rw all refl,
        size,
        λ k r e.
            (held-stored_from garbage c.long 0 k c.net.ifaces r (omega (arith, h.counted.fits)) e
              ∙ ap (λ j. held long_len (get_or c.long j no_track)) (omega arith)),
      )
