-- ===== src/Beacon.antt =====
-- src/api/api_beacon.c: the discovery beacon. The socket, gethostname, getifaddrs with inet_ntop and the
-- clock are arguments.
pub mod Spaced
mod Examples
use embedded_network_monitor.Prelude.{
  ℕ, zero, suc, ◌+◌, ◌-◌, ◌*◌, ◌/◌, ◌%◌, ◌^◌, ◌≤◌, ◌<◌, min, ◌≡◌, refl, sym, ap, ap₂, ◌∙◌, ◌≢◌, ◌↔◌,
  ◌⊎◌, inl, inr, Bool, true, false, not, ◌&&◌, ◌||◌, Option, none, some, List, [], ◌∷◌, ◌++◌, map,
  append-nil, append_assoc, arith, ltb, leb, ◌==◌, if◌then◌else◌, Bool-cases, Option-cases, Bytes,
  codes, str_eq, str_eq_refl, str_eq→eq, ne→str_eq, length, get_elem?, get_or, set, take, drop,
  replicate, All, length-append, length-set, length-take, length-replicate, take_all,
  get_or-set_self, get_or-set_ne, All-append, All-set, All-replicate, All-get_or,
}
use embedded_network_monitor.Prelude.Int.{ℤ, pos, negsuc}
use embedded_network_monitor.Config.Entries.{Config, copy_str, get_int}
use embedded_network_monitor.Config.Text.{decimal}

abbrev pub interval_ms : ℕ
interval_ms = 5000

-- an address of the list that getifaddrs gives, with the text that inet_ntop makes of it
pub record Address : Type 0 where
  pub is_inet : Bool
  pub is_loopback : Bool
  pub is_up : Bool
  pub text : Bytes

-- `is_open` is `s_sock >= 0`. `sends` has the datagrams with their times, latest first.
pub record Beacon : Type 0 where
  pub is_open : Bool
  pub api_port : ℤ
  pub last_beacon_ms : ℕ
  pub sends : List (ℕ × Bytes)

-- the first address that is up and no loopback
unfoldable pub first_address : List Address → Bytes
first_address [] = codes "0.0.0.0"
first_address (a ∷ addresses) =
    let rest = first_address addresses in
    if not a.is_inet
    then rest
    else if a.is_loopback
    then rest
    else if not a.is_up
    then rest
    else a.text

unfoldable pub ip_of : Option (List Address) → Bytes
unfolding first_address
ip_of none = codes "0.0.0.0"
ip_of (some addresses) = first_address addresses

unfoldable pub payload : ℤ → Bytes → Bytes → Bytes
payload port hostname ip = copy_str 256 (
    codes "{\"service\":\"netmon\",\"version\":\"3.0.0\",\"port\":"
    ++ (decimal port
        ++ (codes ",\"hostname\":\""
            ++ (hostname ++ (codes "\",\"ip\":\"" ++ (ip ++ codes "\"}"))))))

-- the state that a program starts in, before any call
abbrev pub not_started : Beacon
not_started = record { is_open = false; api_port = pos 0; last_beacon_ms = 0; sends = [] }

-- The result is whether the socket was made.
unfoldable pub api_beacon_init : Bool → Option Config → Beacon → Bool × Beacon
api_beacon_init opens cfg b =
    let port = get_int cfg (some (codes "api_port")) (pos 8080) in
    if opens
    then (true, record b { is_open = true; api_port = port; last_beacon_ms = 0 })
    else (false, record b { is_open = false; api_port = port })

unfoldable pub send_beacon : Bytes → Option (List Address) → ℕ → Beacon → Beacon
unfolding ip_of payload
send_beacon hostname addresses now b =
    if not b.is_open
    then b
    else record b { sends = (now, payload b.api_port hostname (ip_of addresses)) ∷ b.sends }

-- the milliseconds from `last` to `now`, in 64 bits
abbrev pub since : ℕ → ℕ → ℕ
since last now = (now + 2 ^ 64 - last) % 2 ^ 64

unfoldable pub api_beacon_tick : Bytes → Option (List Address) → ℕ → Beacon → Beacon
unfolding send_beacon
api_beacon_tick hostname addresses now b =
    if not b.is_open
    then b
    else if leb interval_ms (since b.last_beacon_ms now)
    then record (send_beacon hostname addresses now b) { last_beacon_ms = now }
    else b

unfoldable pub api_beacon_shutdown : Beacon → Beacon
api_beacon_shutdown b = if b.is_open then record b { is_open = false } else b
