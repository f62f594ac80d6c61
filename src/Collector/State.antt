-- ===== src/Collector/State.antt =====
-- The static variables of net_collector.c, and its look-ups by name. Each array of 8 is a list of 8;
-- `D` stands for `float` and `double`, between which the code converts.
use mathlib.Core.Option
use embedded_network_monitor.Prelude.{
  ℕ, zero, suc, Bool, Option, none, some, List, [], ◌∷◌, if◌then◌else◌, Bytes, str_eq,
}
use embedded_network_monitor.NetState.{NetStats, HistorySample, IfaceState, WanDiscovery, NetState}
use embedded_network_monitor.Config.Entries.{Config, get_str}

abbrev pub short_len : ℕ
short_len = 60

abbrev pub long_len : ℕ
long_len = 1440

-- one row of a history array, with its head and its count
pub record Track (D : Type 0) : Type 0 where
  pub buf : List (HistorySample D)
  pub head : ℕ
  pub count : ℕ

abbrev pub no_track : {D : Type 0} → Track D
no_track = record { buf = []; head = 0; count = 0 }

-- `struct timespec` of the monotonic clock
pub record Clock : Type 0 where
  pub sec : ℕ
  pub nsec : ℕ

-- `promiscuous_on` records the calls of `net_set_promiscuous`, in order.
pub record Collector (D : Type 0) : Type 0 where
  pub net : NetState D
  pub cfg : Option Config
  pub short : List (Track D)
  pub long : List (Track D)
  pub prev_stats : List NetStats
  pub prev_valid : Bool
  pub prev_time : Clock
  pub minute_rx : List D
  pub minute_tx : List D
  pub minute_count : ℕ
  pub infra_idx : ℕ
  pub wan : WanDiscovery D
  pub wan_tick : ℕ
  pub promiscuous : Bool
  pub promiscuous_on : List Bytes

-- the index of the first interface of that name
unfoldable pub find_iface : {D : Type 0} → List (IfaceState D) → Bytes → Option ℕ
find_iface [] name = none
find_iface (st ∷ sts) name =
    if str_eq st.info.name name then some 0 else Option.map suc (find_iface sts name)

-- the first statistics of that name
unfoldable pub find_stats : List NetStats → Bytes → Option NetStats
find_stats [] name = none
find_stats (s ∷ ss) name = if str_eq s.name name then some s else find_stats ss name

-- what a pointer to an element of an array is used for
unfoldable pub modify {ℓ} : {A : Type ℓ} → List A → ℕ → (A → A) → List A
modify [] k f = []
modify (x ∷ xs) zero f = f x ∷ xs
modify (x ∷ xs) (suc k) f = x ∷ modify xs k f

-- `config_get_str (g_cfg, key, default)`
unfoldable pub setting : Option Config → Bytes → Bytes → Bytes
setting cfg key default = elim (get_str cfg (some key) (some default)) [ none ↦ [] | some v ↦ v ]
