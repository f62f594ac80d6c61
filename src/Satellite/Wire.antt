-- ===== src/Satellite/Wire.antt =====
-- Writing a structure and reading it back.
use embedded_network_monitor.Prelude.{
  ℕ, zero, suc, ◌+◌, ◌*◌, ◌^◌, ◌<◌, ◌≡◌, refl, sym, ap, ap₂, ◌∙◌, List, [], ◌∷◌, ◌++◌, append_assoc,
  arith, Bytes, length, take, drop, All, length-append, take-length-append, drop-length-append,
}
use embedded_network_monitor.Satellite.Protocol.{
  IfaceData, Snapshot, iface_name_len, iface_size, snapshot_size, byte0, byte1, byte2, byte3,
  put_iface_fields, put_iface, put_ifaces, get_iface, get_iface_fields, get_ifaces, put_snapshot,
  get_snapshot, crc_bit, crc_bits, crc_from, crc16,
}

abbrev pub IsU16 : ℕ → Type 0
IsU16 n = n < 2 ^ 16

abbrev pub IsU32 : ℕ → Type 0
IsU32 n = n < 2 ^ 32

-- Fields that fit their widths.
pub record IsIface (d : IfaceData) : Type 0 where
  pub name_size : length d.name ≡ iface_name_len
  pub rx_fits : IsU32 d.rx_rate
  pub tx_fits : IsU32 d.tx_rate
  pub speed_fits : IsU16 d.link_speed

pub record IsSnapshot (s : Snapshot) : Type 0 where
  pub time_fits : IsU32 s.timestamp
  pub uptime_fits : IsU32 s.uptime_sec
  pub gw_fits : IsU16 s.gw_latency
  pub dns_fits : IsU16 s.dns_latency
  pub wan_fits : IsU16 s.wan_latency
  pub jitter_fits : IsU16 s.wan_jitter
  pub counted : length s.ifaces ≡ s.num_ifaces
  pub ifaces_fit : All IsIface s.ifaces

pub u16_bytes : (n : ℕ) → IsU16 n → byte0 n + byte1 n * 256 ≡ n
u16_bytes n h = omega arith

pub u32_bytes :
    (n : ℕ) → IsU32 n → byte0 n + byte1 n * 256 + byte2 n * 65536 + byte3 n * 16777216 ≡ n
u32_bytes n h = omega arith

pub take-append : (xs ys : Bytes) {n : ℕ} → length xs ≡ n → take n (xs ++ ys) ≡ xs
take-append xs ys e = rw (← e) (take-length-append xs ys)

pub drop-append : (xs ys : Bytes) {n : ℕ} → length xs ≡ n → drop n (xs ++ ys) ≡ ys
drop-append xs ys e = rw (← e) (drop-length-append xs ys)

get_iface-put_iface :
    (d : IfaceData) (rest : Bytes) → IsIface d → get_iface (put_iface d ++ rest) ≡ d
unfolding get_iface put_iface
get_iface-put_iface d rest h =
    ap get_iface (append_assoc d.name (put_iface_fields d) rest)
    ∙ ap₂ get_iface_fields (take-append d.name (put_iface_fields d ++ rest) h.name_size)
        (drop-append d.name (put_iface_fields d ++ rest) h.name_size)
    ∙ rw (
      u32_bytes d.rx_rate h.rx_fits,
      u32_bytes d.tx_rate h.tx_fits,
      u16_bytes d.link_speed h.speed_fits,
    )

length-put_iface : (d : IfaceData) → IsIface d → length (put_iface d) ≡ iface_size
unfolding put_iface
length-put_iface d h = omega (arith, length-append d.name (put_iface_fields d), h.name_size)

get_ifaces-put_ifaces :
    (ds : List IfaceData) (rest : Bytes)
    → All IsIface ds
    → get_ifaces (length ds) (put_ifaces ds ++ rest) ≡ ds
unfolding get_ifaces put_ifaces
get_ifaces-put_ifaces [] rest h = refl
get_ifaces-put_ifaces (d ∷ ds) rest h =
    let e = append_assoc (put_iface d) (put_ifaces ds) rest in
    ap₂ ◌∷◌ (ap get_iface e ∙ get_iface-put_iface d (put_ifaces ds ++ rest) h.0) (
      ap (λ bs. get_ifaces (length ds) (drop iface_size bs)) e
      ∙ ap (get_ifaces (length ds))
          (drop-append (put_iface d) (put_ifaces ds ++ rest) (length-put_iface d h.0))
      ∙ get_ifaces-put_ifaces ds rest h.1)

length-put_ifaces :
    (ds : List IfaceData) → All IsIface ds → length (put_ifaces ds) ≡ length ds * iface_size
unfolding put_ifaces
length-put_ifaces [] h = omega arith
length-put_ifaces (d ∷ ds) h = omega (
  arith,
  length-append (put_iface d) (put_ifaces ds),
  length-put_iface d h.0,
  length-put_ifaces ds h.1,
)

pub length-put_snapshot :
    (s : Snapshot)
    → IsSnapshot s
    → length (put_snapshot s) ≡ snapshot_size + s.num_ifaces * iface_size
unfolding put_snapshot
length-put_snapshot s h = omega (arith, length-put_ifaces s.ifaces h.ifaces_fit, h.counted)

-- Reading a snapshot back from the bytes that were written, whatever follows them, gives the
-- snapshot, if its fields fit their widths and it has as many interfaces as it says.
pub get_snapshot-put_snapshot :
    (s : Snapshot) (rest : Bytes)
    → IsSnapshot s
    → get_snapshot s.num_ifaces (put_snapshot s ++ rest) ≡ s
unfolding get_snapshot put_snapshot
get_snapshot-put_snapshot s rest h =
    rw
      (
        u32_bytes s.timestamp h.time_fits,
        u32_bytes s.uptime_sec h.uptime_fits,
        u16_bytes s.gw_latency h.gw_fits,
        u16_bytes s.dns_latency h.dns_fits,
        u16_bytes s.wan_latency h.wan_fits,
        u16_bytes s.wan_jitter h.jitter_fits,
      )
      (ap (λ ds. record s { ifaces = ds })
        (ap (λ n. get_ifaces n (put_ifaces s.ifaces ++ rest)) (sym h.counted)
          ∙ get_ifaces-put_ifaces s.ifaces rest h.ifaces_fit))

crc_bit-lt : (crc : ℕ) → IsU16 (crc_bit crc)
unfolding crc_bit
crc_bit-lt crc = ground arith

crc_bits-lt : (n crc : ℕ) → IsU16 crc → IsU16 (crc_bits n crc)
unfolding crc_bits
crc_bits-lt zero crc h = h
crc_bits-lt (suc n) crc h = crc_bits-lt n (crc_bit crc) (crc_bit-lt crc)

crc_from-lt : (bs : Bytes) (crc : ℕ) → IsU16 crc → IsU16 (crc_from crc bs)
unfolding crc_from
crc_from-lt [] crc h = h
crc_from-lt (b ∷ bs) crc h = crc_from-lt bs _ (crc_bits-lt 8 _ (omega arith))

pub crc16-lt : (bs : Bytes) → IsU16 (crc16 bs)
unfolding crc16
crc16-lt bs = crc_from-lt bs 0xFFFF (omega arith)
