-- ===== src/DataStore.antt =====
-- src/core/data_store.c, with the getters of the histories of src/net/net_collector.c. The file is its
-- header and the records behind it: fread gives back the structs that fwrite wrote.
pub mod Saved
mod Examples
use embedded_network_monitor.Prelude.{
  ℕ, zero, suc, ◌+◌, ◌-◌, ◌*◌, ◌/◌, ◌%◌, ◌^◌, ◌≤◌, ◌<◌, min, ◌≡◌, refl, sym, ap, ap₂, ◌∙◌, ◌≢◌, ◌↔◌,
  ◌⊎◌, inl, inr, Bool, true, false, not, ◌&&◌, ◌||◌, Option, none, some, List, [], ◌∷◌, ◌++◌, map,
  append-nil, append_assoc, arith, ltb, leb, ◌==◌, if◌then◌else◌, Bool-cases, Option-cases, Bytes,
  codes, str_eq, str_eq_refl, str_eq→eq, ne→str_eq, length, get_elem?, get_or, set, take, drop,
  replicate, All, length-append, length-set, length-take, length-replicate, take_all,
  get_or-set_self, get_or-set_ne, All-append, All-set, All-replicate, All-get_or,
}
use embedded_network_monitor.Prelude.Int.{ℤ, pos, negsuc}
use embedded_network_monitor.Prelude.Floating.{Floating}
use embedded_network_monitor.NetState.{IfaceState, HistorySample, max_interfaces, iface_name_max}
use embedded_network_monitor.Collector.State.{Collector, Track, no_track, long_len}
use embedded_network_monitor.Config.Entries.{copy_str}

pub record Header : Type 0 where
  pub magic : ℕ
  pub version : ℕ
  pub num_ifaces : ℤ

pub record Stored (D : Type 0) : Type 0 where
  pub name : Bytes
  pub track : Track D

-- without a header, the file is too short for one
pub record HistoryFile (D : Type 0) : Type 0 where
  pub header : Option Header
  pub records : List (Stored D)

abbrev pub store_magic : ℕ
store_magic = 0x4E4D4853

abbrev pub store_version : ℕ
store_version = 1

-- what data_store_load writes to the log
pub data Message : Type 0 where
  no_file incompatible loaded : Message
  loading : ℤ → Message
  truncated : ℕ → Message

-- how often a loop to `n` runs
abbrev pub rounds_of : ℤ → ℕ
rounds_of (pos n) = n
rounds_of (negsuc n) = 0

-- `net_get_short_history` and `net_get_long_history` on the rows of their array
unfoldable pub get_history : {D : Type 0} → List (Track D) → ℕ → Option (Track D)
get_history rows i = if ltb i max_interfaces then some (get_or rows i no_track) else none

unfoldable pub read_records : {D : Type 0} → ℕ → ℕ → List (Stored D) → List Message
read_records zero i records = []
read_records (suc n) i [] = truncated i ∷ []
read_records (suc n) i (r ∷ records) = read_records n (i + 1) records

unfoldable pub load_records : {D : Type 0} → Option Header → List (Stored D) → List Message
unfolding read_records
load_records none records = incompatible ∷ []
load_records (some h) records =
    if not (h.magic == store_magic) || not (h.version == store_version)
    then incompatible ∷ []
    else loading h.num_ifaces ∷ (read_records (rounds_of h.num_ifaces) 0 records ++ (loaded ∷ []))

unfoldable pub data_store_load : {D : Type 0} → Option (HistoryFile D) → List Message
unfolding load_records
data_store_load none = no_file ∷ []
data_store_load (some file) = load_records file.header file.records

module _ {D : Type 0} ⦃f : Floating D⦄ where
  abbrev pub no_samples : List (HistorySample D)
  no_samples = replicate long_len (record { rx_bps = f.zero_d; tx_bps = f.zero_d })

  -- The record of an interface. Where there is no history, the head is what the stack holds.
  unfoldable pub stored_of : ℕ → Bytes → Option (Track D) → Stored D
  stored_of garbage name none = record {
    name = copy_str iface_name_max name;
    track = record { buf = no_samples; head = garbage; count = 0 };
  }
  stored_of garbage name (some t) = record {
    name = copy_str iface_name_max name;
    track = record t { buf = if ltb 0 t.count then t.buf else no_samples };
  }

  -- the records from index `i` on
  unfoldable pub stored_from : ℕ → List (Track D) → ℕ → List (IfaceState D) → List (Stored D)
  unfolding stored_of get_history
  stored_from garbage rows i [] = []
  stored_from garbage rows i (is ∷ ifaces) =
      stored_of garbage is.info.name (get_history rows i) ∷ stored_from garbage rows (i + 1) ifaces

  unfoldable pub history_file : ℕ → Collector D → HistoryFile D
  unfolding stored_from
  history_file garbage c = record {
    header =
        some
          (record { magic = store_magic; version = store_version; num_ifaces = c.net.num_ifaces });
    records = stored_from garbage c.long 0 (take (rounds_of c.net.num_ifaces) c.net.ifaces);
  }

  -- the file afterwards, from whether it can be opened and what it was
  unfoldable pub data_store_save :
      ℕ → Bool → Collector D → Option (HistoryFile D) → Option (HistoryFile D)
  unfolding history_file
  data_store_save garbage opens c old = elim c.net.num_ifaces [
    | pos zero ↦ old
    | pos (suc n) ↦ if opens then some (history_file garbage c) else old
    | negsuc n ↦ if opens then some (history_file garbage c) else old
  ]
