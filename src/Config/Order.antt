-- ===== src/Config/Order.antt =====
-- The order in which different keys are set does not show.
use embedded_network_monitor.Prelude.{
  ◌+◌, ◌≤◌, ◌<◌, ◌≡◌, refl, ◌≢◌, inl, inr, true, Option, [], ◌∷◌, arith, Bool-cases, Option-cases,
  Bytes, str_eq, str_eq→eq, length, length-append,
}
use embedded_network_monitor.Config.Entries.{
  Config, set_key, get_value, put, max_entries, key_max, append_entry, find, copy_str, val_max,
}
use embedded_network_monitor.Config.Laws.{has_place, get_value-set_key, length-set_value}

-- two tables that every reader of values takes for the same
abbrev pub Same : Config → Config → Type 0
Same cfg cfg' = (k : Bytes) (d : Option Bytes) → get_value cfg k d ≡ get_value cfg' k d

length-set_key : (cfg : Config) (key v : Bytes) → length (set_key cfg key v) ≤ length cfg + 1
unfolding set_key put append_entry
length-set_key cfg key v = elim (Option-cases (find cfg key)) [
  | inl n ↦ rw n (
      ground (
        arith,
        length-append cfg (record { key = copy_str key_max key; value = copy_str val_max v } ∷ []),
      ))
  | inr (i, e) ↦ rw e (omega (arith, length-set_value cfg i v))
]

has_place-room : (cfg : Config) (key : Bytes) → length cfg < max_entries → has_place cfg key ≡ true
has_place-room cfg key h = elim (Option-cases (find cfg key)) [
  | inl n ↦ rw (n, has_place) (ground arith)
  | inr (i, e) ↦ rw (e, has_place) refl
]

-- Setting two different keys of at most 63 bytes, in a table with room for two more entries, gives in
-- either order tables of which every key reads the same.
pub set_key_comm :
    (cfg : Config) (key₁ v₁ key₂ v₂ : Bytes)
    → length key₁ < key_max
    → length key₂ < key_max
    → key₁ ≢ key₂
    → length cfg + 1 < max_entries
    → Same (set_key (set_key cfg key₁ v₁) key₂ v₂) (set_key (set_key cfg key₂ v₂) key₁ v₁)
set_key_comm cfg key₁ v₁ key₂ v₂ h₁ h₂ ne room k d =
    let p₁ = has_place-room cfg key₁ (omega arith) in
    let p₂ = has_place-room cfg key₂ (omega arith) in
    let q₁ =
      has_place-room (set_key cfg key₂ v₂) key₁ (omega (arith, length-set_key cfg key₂ v₂)) in
    let q₂ =
      has_place-room (set_key cfg key₁ v₁) key₂ (omega (arith, length-set_key cfg key₁ v₁)) in
    rw
      (
        get_value-set_key (set_key cfg key₁ v₁) key₂ v₂ k d h₂,
        get_value-set_key (set_key cfg key₂ v₂) key₁ v₁ k d h₁,
        get_value-set_key cfg key₁ v₁ k d h₁,
        get_value-set_key cfg key₂ v₂ k d h₂,
        p₁,
        p₂,
        q₁,
        q₂,
      )
      (ground (
        arith,
        str_eq→eq key₁ k,
        str_eq→eq key₂ k,
        Bool-cases (str_eq key₁ k),
        Bool-cases (str_eq key₂ k),
      ))
