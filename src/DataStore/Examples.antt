-- ===== src/DataStore/Examples.antt =====
-- Runs of core/data_store.c on concrete inputs.
use embedded_network_monitor.Prelude.{
  ℕ, ◌<◌, ◌≡◌, refl, true, none, some, [], ◌∷◌, arith, codes, length, get_elem?, get_or, replicate,
  length-replicate, All-replicate,
}
use embedded_network_monitor.Prelude.Int.{pos}
use embedded_network_monitor.Prelude.Floating.{nat_floating}
use embedded_network_monitor.Samples.{state_of}
use embedded_network_monitor.NetState.{WanDiscovery}
use embedded_network_monitor.Collector.State.{Collector, Track, short_len, long_len, no_track}
use embedded_network_monitor.Collector.History.{IsTrack, held}
use embedded_network_monitor.Collector.Kept.{IsOk}
use embedded_network_monitor.DataStore.{
  HistoryFile, Stored, no_file, incompatible, loaded, loading, truncated, store_magic,
  data_store_load, load_records, read_records, data_store_save,
}
use embedded_network_monitor.DataStore.Saved.{data_store_load-save}

-- a row that has been full since long
abbrev full_track : ℕ → Track ℕ
full_track cap = record {
  buf = replicate cap (record { rx_bps = 3; tx_bps = 4 });
  head = 7;
  count = cap;
}

full_track-IsTrack : (cap : ℕ) → 7 < cap → IsTrack cap (full_track cap)
full_track-IsTrack cap h = record {
  size = length-replicate cap _;
  head_in = h;
  count_in = omega arith;
}

abbrev wan : WanDiscovery ℕ
wan = record {
  hops = [];
  wan_reachable = 0;
  wan_latency_ms = 0;
  wan_jitter_ms = 0;
  wan_packet_loss_pct = 0;
}

abbrev running : Collector ℕ
running = record {
  net = state_of 1;
  cfg = none;
  short = replicate 8 (full_track short_len);
  long = replicate 8 (full_track long_len);
  prev_stats = [];
  prev_valid = true;
  prev_time = record { sec = 10; nsec = 0 };
  minute_rx = replicate 8 6000;
  minute_tx = replicate 8 600;
  minute_count = 59;
  infra_idx = 0;
  wan = wan;
  wan_tick = 1;
  promiscuous = true;
  promiscuous_on = [];
}

running-IsOk : IsOk running
running-IsOk = record {
  counted = record { counted = refl; fits = omega arith };
  short_size = refl;
  short_rows = All-replicate (IsTrack short_len) 8 (full_track-IsTrack short_len (omega arith));
  long_size = refl;
  long_rows = All-replicate (IsTrack long_len) 8 (full_track-IsTrack long_len (omega arith));
  rx_size = refl;
  tx_size = refl;
  minute_in = omega arith;
}

data_store_load-save_example :
    (file : HistoryFile ℕ) × (data_store_save 77 true running none ≡ some file)
    × (data_store_load (some file) ≡ loading (pos 1) ∷ loaded ∷ [])
    × (length file.records ≡ 1)
    × ((k : ℕ) (r : Stored ℕ)
        → get_elem? file.records k ≡ some r
        → held long_len r.track ≡ held long_len (get_or running.long k no_track))
data_store_load-save_example = data_store_load-save 77 running none running-IsOk (omega arith)

-- A file that breaks off in its second record, a file of another kind, and none.
data_store_load_run :
    (data_store_load {D = ℕ} (
        some (record {
          header = some (record { magic = store_magic; version = 1; num_ifaces = pos 2 });
          records = record { name = codes "eth0"; track = no_track } ∷ [];
        }))
      ≡ loading (pos 2) ∷ truncated 1 ∷ loaded ∷ [])
    × (data_store_load {D = ℕ} (some (record { header = none; records = [] })) ≡ incompatible ∷ [])
    × (data_store_load {D = ℕ} none ≡ no_file ∷ [])
unfolding data_store_load load_records read_records
data_store_load_run = (refl, refl, refl)
