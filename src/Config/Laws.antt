-- ===== src/Config/Laws.antt =====
-- Reading back what was written: config_get_str after config_set_str, and the bounds of the arrays.
use mathlib.Core.Option
use embedded_network_monitor.Prelude.{
  ℕ, zero, suc, ◌+◌, ◌<◌, ◌≤◌, min, ◌≡◌, refl, ap, inl, inr, Bool, true, false, ◌&&◌, Option, none,
  some, [], ◌∷◌, arith, Bytes, str_eq, str_eq→eq, ltb→lt, ne→str_eq, ltb, if◌then◌else◌, length,
  length-take, length-append, take_all, All, All-append, Bool-cases, Option-cases,
}
use embedded_network_monitor.Config.Entries.{
  Entry, Config, max_entries, key_max, val_max, copy_str, find, set_value, append_entry, value_at,
  get_value, put, set_key,
}

get_value-cons :
    (e : Entry) (cfg : Config) (k : Bytes) (d : Option Bytes)
    → get_value (e ∷ cfg) k d ≡ (if str_eq e.key k then some e.value else get_value cfg k d)
unfolding get_value find value_at
get_value-cons e cfg k d = elim (Option-cases (find cfg k)) [
  | inl n ↦ ground (arith, n)
  | inr s ↦ ground (arith, s.1)
]

find-cons :
    (e : Entry) (cfg : Config) (k : Bytes)
    → find (e ∷ cfg) k ≡ (if str_eq e.key k then some 0 else Option.map suc (find cfg k))
unfolding find
find-cons e cfg k = refl

str_eq_trans : (a b c : Bytes) → str_eq a b ≡ true → str_eq a c ≡ str_eq b c
str_eq_trans a b c h = ap (λ t. str_eq t c) (str_eq→eq a b h)

get_value-set_value :
    (cfg : Config) (i : ℕ) (key v k : Bytes) (d : Option Bytes)
    → find cfg key ≡ some i
    → get_value (set_value cfg i v) k d
      ≡ (if str_eq key k then some (copy_str val_max v) else get_value cfg k d)
unfolding set_value
get_value-set_value [] i key v k d h = unfold find in cc
get_value-set_value (e ∷ cfg) zero key v k d h =
    let same : str_eq e.key key ≡ true =
      ground (arith, find-cons e cfg key, Option-cases (find cfg key)) in
    ground (
      arith,
      get_value-cons (record e { value = copy_str val_max v }) cfg k d,
      get_value-cons e cfg k d,
      str_eq_trans e.key key k same,
    )
get_value-set_value (e ∷ cfg) (suc i) key v k d h =
    let differ : str_eq e.key key ≡ false = ground (arith, find-cons e cfg key) in
    let later : find cfg key ≡ some i =
      ground (arith, find-cons e cfg key, Option-cases (find cfg key)) in
    ground (
      arith,
      get_value-cons e (set_value cfg i v) k d,
      get_value-cons e cfg k d,
      get_value-set_value cfg i key v k d later,
      str_eq→eq e.key k,
      str_eq→eq key k,
    )

get_value-append_entry :
    (cfg : Config) (key v k : Bytes) (d : Option Bytes)
    → length key < key_max
    → find cfg key ≡ none
    → get_value (append_entry cfg key v) k d
      ≡ (if str_eq key k then some (copy_str val_max v) else get_value cfg k d)
unfolding append_entry
get_value-append_entry [] key v k d short h = rw get_value-cons (rw (take_all 63 key (omega arith)))
get_value-append_entry (e ∷ cfg) key v k d short h =
    let differ : str_eq e.key key ≡ false = ground (arith, find-cons e cfg key) in
    let later : find cfg key ≡ none =
      ground (arith, find-cons e cfg key, Option-cases (find cfg key)) in
    ground (
      arith,
      get_value-cons e (append_entry cfg key v) k d,
      get_value-cons e cfg k d,
      get_value-append_entry cfg key v k d short later,
      str_eq→eq e.key k,
      str_eq→eq key k,
    )

-- whether `config_set_str` finds a place
abbrev pub has_place : Config → Bytes → Bool
has_place cfg key = elim (find cfg key) [ none ↦ ltb (length cfg) max_entries | some i ↦ true ]

get_value_missing :
    (cfg : Config) (k : Bytes) (d : Option Bytes) → find cfg k ≡ none → get_value cfg k d ≡ d
unfolding get_value value_at
get_value_missing cfg k d h = rw h

-- Reading any key after `config_set_str`, for a key of at most 63 bytes: the key that was set gives
-- the first 127 bytes of the value if there was a place for it, and any other key what it gave
-- before; a full table is left as it was.
pub get_value-set_key :
    (cfg : Config) (key v k : Bytes) (d : Option Bytes)
    → length key < key_max
    → get_value (set_key cfg key v) k d
      ≡ (if str_eq key k && has_place cfg key then some (copy_str val_max v) else get_value cfg k d)
unfolding set_key put
get_value-set_key cfg key v k d short = elim (Option-cases (find cfg key)) [
  | inl n ↦ ground (
    arith,
    n,
    get_value-append_entry cfg key v k d short n,
    str_eq→eq key k,
    get_value_missing cfg key d n,
  )
  | inr s ↦ ground (arith, s.1, get_value-set_value cfg s.0 key v k d s.1)
]

abbrev IsBounded : Entry → Type 0
IsBounded e = (length e.key < key_max) × (length e.value < val_max)

-- Every key and value fits its array with its NUL, and the entries fit theirs.
pub record Fits (cfg : Config) : Type 0 where
  pub entries_fit : All IsBounded cfg
  pub count_fits : length cfg ≤ max_entries

All-set_value :
    (cfg : Config) (i : ℕ) (v : Bytes) → All IsBounded cfg → All IsBounded (set_value cfg i v)
unfolding set_value
All-set_value [] i v h = tt
All-set_value (e ∷ cfg) zero v h = ((h.0.0, omega (arith, length-take 127 v)), h.1)
All-set_value (e ∷ cfg) (suc i) v h = (h.0, All-set_value cfg i v h.1)

pub length-set_value : (cfg : Config) (i : ℕ) (v : Bytes) → length (set_value cfg i v) ≡ length cfg
unfolding set_value
length-set_value [] i v = refl
length-set_value (e ∷ cfg) zero v = refl
length-set_value (e ∷ cfg) (suc i) v = ap suc (length-set_value cfg i v)

pub put-Fits : (cfg : Config) (o : Option ℕ) (key v : Bytes) → Fits cfg → Fits (put cfg o key v)
unfolding put append_entry
put-Fits cfg (some i) key v h = record {
  entries_fit = All-set_value cfg i v h.entries_fit;
  count_fits = omega (arith, length-set_value cfg i v, h.count_fits);
}
put-Fits cfg none key v h = elim (Bool-cases (ltb (length cfg) max_entries)) [
  | inl room ↦ rw room (record {
    entries_fit =
        All-append IsBounded cfg _ h.entries_fit
          ((omega (arith, length-take 63 key), omega (arith, length-take 127 v)), tt);
    count_fits = omega (arith, length-append cfg (_ ∷ []), ltb→lt (length cfg) 64 room);
  })
  | inr full ↦ rw full h
]

-- `config_set_str` never writes past an array: from a table that fits, the new table fits, whatever
-- the key and the value.
pub set_key-Fits : (cfg : Config) (key v : Bytes) → Fits cfg → Fits (set_key cfg key v)
unfolding set_key
set_key-Fits cfg key v h = put-Fits cfg (find cfg key) key v h

find_long :
    (cfg : Config) (key : Bytes) → All IsBounded cfg → key_max ≤ length key → find cfg key ≡ none
unfolding find
find_long [] key h long = refl
find_long (e ∷ cfg) key h long =
    let differ : str_eq e.key key ≡ false =
      ne→str_eq e.key key (λ p. omega (arith, ap (length {A = ℕ}) p, h.0.0)) in
    rw (differ, find_long cfg key h.1 long)

length-set_key_missing :
    (cfg : Config) (key v : Bytes)
    → find cfg key ≡ none
    → length cfg ≤ max_entries
    → length (set_key cfg key v) ≡ min max_entries (length cfg + 1)
unfolding set_key put append_entry
length-set_key_missing cfg key v n h = ground (
  arith,
  n,
  length-append cfg (record { key = copy_str key_max key; value = copy_str val_max v } ∷ []),
)

-- A key of 64 bytes or more is stored cut to 63 and never found again: after `config_set_str` it
-- still reads as the default, and each such call uses up one more entry until the table is full.
pub set_key_long :
    (cfg : Config) (key v : Bytes) (d : Option Bytes)
    → Fits cfg
    → key_max ≤ length key
    → (get_value (set_key cfg key v) key d ≡ d)
      × (length (set_key cfg key v) ≡ min max_entries (length cfg + 1))
set_key_long cfg key v d h long = (
  get_value_missing (set_key cfg key v) key d
      (find_long (set_key cfg key v) key (set_key-Fits cfg key v h).entries_fit long),
  grows,
)
  where
    grows : length (set_key cfg key v) ≡ min max_entries (length cfg + 1)
    grows = length-set_key_missing cfg key v (find_long cfg key h.entries_fit long) h.count_fits
