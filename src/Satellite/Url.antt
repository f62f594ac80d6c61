-- ===== src/Satellite/Url.antt =====
-- `parse_url` of satellite/host/src/sat_feeder.c.
use mathlib.Core.Option
use embedded_network_monitor.Prelude.{
  ℕ, suc, ◌+◌, ◌-◌, Option, none, some, [], ◌∷◌, ltb, ◌==◌, if◌then◌else◌, Bytes, codes, take, drop,
  starts_with,
}
use embedded_network_monitor.Config.Text.{atoi}
use embedded_network_monitor.Config.Entries.{copy_str}
use embedded_network_monitor.Prelude.Int.{ℤ, pos}

-- the index of the first byte `c`: `strchr`
unfoldable pub index_of : ℕ → Bytes → Option ℕ
index_of c [] = none
index_of c (d ∷ s) = let rest = Option.map suc (index_of c s) in if d == c then some 0 else rest

-- the indices of a slash and of a colon, and whether the colon stands before any slash
unfoldable pub port_at : Option ℕ → Option ℕ → Option ℕ
port_at slash none = none
port_at none (some colon) = some colon
port_at (some slash) (some colon) = if ltb colon slash then some colon else none

unfoldable pub host_part : ℕ → Bytes → Option ℕ → Option ℕ → Bytes
host_part host_len p slash (some colon) = take (host_len - 1) (take colon p)
host_part host_len p (some slash) none = take (host_len - 1) (take slash p)
host_part host_len p none none = take (host_len - 1) p

unfoldable pub port_part : Bytes → Option ℕ → ℤ
unfolding atoi
port_part p none = pos 80
port_part p (some colon) = atoi (drop (colon + 1) p)

unfoldable pub path_part : ℕ → Bytes → Option ℕ → Bytes
path_part path_len p none = copy_str path_len (codes "/")
path_part path_len p (some slash) = copy_str path_len (drop slash p)

-- behind the scheme
unfoldable pub parse_rest : ℕ → ℕ → Bytes → Bytes × ℤ × Bytes
unfolding index_of port_at host_part port_part path_part
parse_rest host_len path_len p =
    let slash = index_of b'/' p in
    let colon = port_at slash (index_of b':' p) in
    (host_part host_len p slash colon, port_part p colon, path_part path_len p slash)

-- host, port and path; -1 is `none`
unfoldable pub parse_url : ℕ → ℕ → Bytes → Option (Bytes × ℤ × Bytes)
unfolding parse_rest
parse_url host_len path_len url =
    if starts_with url (codes "http://")
    then some (parse_rest host_len path_len (drop 7 url))
    else if starts_with url (codes "https://")
    then none
    else some (parse_rest host_len path_len url)
