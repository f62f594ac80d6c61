-- ===== src/Satellite/EndToEnd.antt =====
-- From the JSON status to the display: the encoder, the wire and the receiver together.
use embedded_network_monitor.Prelude.{
  ℕ, suc, ◌+◌, ◌-◌, ◌≤◌, ◌≡◌, refl, ap, Bool, true, false, Option, none, some, List, [], ◌∷◌, arith,
  ltb, Bytes, codes, length, take, replicate, All, length-append, length-take, length-replicate,
  ◌%◌, ◌^◌,
}
use embedded_network_monitor.Prelude.Floating.{Floating}
use embedded_network_monitor.Satellite.Protocol.{
  header_size, max_interfaces, iface_name_len, max_frame_size, msg_snapshot, put_snapshot,
}
use embedded_network_monitor.Satellite.Encoder.{build_frame, frame_bytes}
use embedded_network_monitor.Satellite.Data.{SatData, mark_alive, update_snapshot, has_flag}
use embedded_network_monitor.Satellite.Receiver.{Receiver, feed}
use embedded_network_monitor.Satellite.Wire.{IsU16, IsU32, IsIface, IsSnapshot, length-put_snapshot}
use embedded_network_monitor.Satellite.Bounds.{IsRx, AtRest}
use embedded_network_monitor.Satellite.Delivery.{snapshot_delivered}
use embedded_network_monitor.Satellite.Json.{
  Json, item, holds, or_if, number_or, tenths_or, name_field, iface_data, ifaces_data, children,
  conn_flags, status_snapshot, json_to_frame,
}

length-name_field : (s : Option Bytes) → length (name_field s) ≡ iface_name_len
unfolding name_field
length-name_field none = length-replicate {A = ℕ} iface_name_len 0
length-name_field (some s) =
    let cut = take (iface_name_len - 1) s in
    omega (
      arith,
      length-append cut (replicate (iface_name_len - length cut) 0),
      length-replicate {A = ℕ} (iface_name_len - length cut) 0,
      length-take (iface_name_len - 1) s,
    )

-- The four flags do not touch each other.
pub flags_kept :
    (gw dns res wan : Bool)
    → let flags = or_if wan 8 (or_if res 4 (or_if dns 2 (or_if gw 1 0))) in
      (has_flag flags 1 ≡ gw)
      × (has_flag flags 2 ≡ dns)
      × (has_flag flags 4 ≡ res)
      × (has_flag flags 8 ≡ wan)
unfolding or_if
flags_kept true true true true = (refl, refl, refl, refl)
flags_kept true true true false = (refl, refl, refl, refl)
flags_kept true true false true = (refl, refl, refl, refl)
flags_kept true true false false = (refl, refl, refl, refl)
flags_kept true false true true = (refl, refl, refl, refl)
flags_kept true false true false = (refl, refl, refl, refl)
flags_kept true false false true = (refl, refl, refl, refl)
flags_kept true false false false = (refl, refl, refl, refl)
flags_kept false true true true = (refl, refl, refl, refl)
flags_kept false true true false = (refl, refl, refl, refl)
flags_kept false true false true = (refl, refl, refl, refl)
flags_kept false true false false = (refl, refl, refl, refl)
flags_kept false false true true = (refl, refl, refl, refl)
flags_kept false false true false = (refl, refl, refl, refl)
flags_kept false false false true = (refl, refl, refl, refl)
flags_kept false false false false = (refl, refl, refl, refl)

module _ {J : Type 0} ⦃j : Json J⦄ where
  number_or-IsU32 : (o : Option J) → IsU32 (number_or 32 o 0)
  unfolding number_or
  number_or-IsU32 none = omega arith
  number_or-IsU32 (some o) = omega arith

  number_or-IsU16 : (o : Option J) → IsU16 (number_or 16 o 0)
  unfolding number_or
  number_or-IsU16 none = omega arith
  number_or-IsU16 (some o) = omega arith

  tenths_or-IsU16 : (o : Option J) → IsU16 (tenths_or o 0)
  unfolding tenths_or
  tenths_or-IsU16 none = omega arith
  tenths_or-IsU16 (some o) = omega arith

  iface_data-IsIface : (i : J) → IsIface (iface_data i)
  unfolding iface_data
  iface_data-IsIface i = record {
    name_size = length-name_field _;
    rx_fits = number_or-IsU32 _;
    tx_fits = number_or-IsU32 _;
    speed_fits = number_or-IsU16 _;
  }

  ifaces_data_fit : (is : List J) → All IsIface (ifaces_data is)
  unfolding ifaces_data
  ifaces_data_fit [] = tt
  ifaces_data_fit (i ∷ is) = (iface_data-IsIface i, ifaces_data_fit is)

  length-ifaces_data : (is : List J) → length (ifaces_data is) ≡ length is
  unfolding ifaces_data
  length-ifaces_data [] = refl
  length-ifaces_data (i ∷ is) = ap suc (length-ifaces_data is)

  status_snapshot-IsSnapshot : (root : J) (now : ℕ) → IsSnapshot (status_snapshot root now)
  unfolding status_snapshot
  status_snapshot-IsSnapshot root now =
      let arr = children (j.get root (codes "interfaces")) in
      record {
        time_fits = omega arith;
        uptime_fits = number_or-IsU32 _;
        gw_fits = tenths_or-IsU16 _;
        dns_fits = tenths_or-IsU16 _;
        wan_fits = tenths_or-IsU16 _;
        jitter_fits = tenths_or-IsU16 _;
        counted =
            omega
              (arith, length-ifaces_data (take max_interfaces arr), length-take max_interfaces arr);
        ifaces_fit = ifaces_data_fit _;
      }

  status_snapshot_few :
      (root : J) (now : ℕ) → (status_snapshot root now).num_ifaces ≤ max_interfaces
  unfolding status_snapshot
  status_snapshot_few root now = omega arith

  -- A buffer of `SAT_MAX_FRAME_SIZE` bytes always holds the frame.
  pub status_made :
      (root : J) (now seq : ℕ)
      → json_to_frame root now max_frame_size seq ≡ (
        some (frame_bytes msg_snapshot (put_snapshot (status_snapshot root now)) seq),
        (seq + 1) % 2 ^ 16,
      )
  unfolding json_to_frame build_frame
  status_made root now seq =
      let small : ltb max_frame_size
            (header_size + length (put_snapshot (status_snapshot root now)) + 2)
          ≡ false =
        ground (
          arith,
          length-put_snapshot (status_snapshot root now) (status_snapshot-IsSnapshot root now),
          status_snapshot_few root now,
        ) in
      rw small refl

  status_frame :
      (root : J) (now seq : ℕ)
      → (json_to_frame root now max_frame_size seq).0
        ≡ some (frame_bytes msg_snapshot (put_snapshot (status_snapshot root now)) seq)
  status_frame root now seq = ap (λ r. r.0) (status_made root now seq)

  -- Whatever the JSON status holds, the encoder makes a frame of it in a buffer of
  -- `SAT_MAX_FRAME_SIZE` bytes, and the receiver, at rest before the frame, is at rest after it, with
  -- the frame counted and the snapshot of that very status on the display.
  pub status_displayed :
      {D : Type 0} ⦃f : Floating D⦄
      → (root : J) (r : Receiver D) (wall now seq : ℕ) → AtRest r
      → IsRx r
      → IsU16 seq
      → (frame : Bytes) × ((json_to_frame root wall max_frame_size seq).0 ≡ some frame)
        × AtRest (feed r now frame)
        × ((feed r now frame).model
            ≡ update_snapshot (mark_alive r.model now seq) (status_snapshot root wall))
  unfolding json_to_frame
  status_displayed root r wall now seq rest v fits =
      let frame = frame_bytes msg_snapshot (put_snapshot (status_snapshot root wall)) seq in
      let (idle, model) =
        snapshot_delivered r now (status_snapshot root wall) max_frame_size seq frame rest v
          (status_snapshot-IsSnapshot root wall) (status_snapshot_few root wall) fits
          (status_frame root wall seq) in
      (frame, status_frame root wall seq, idle, model)

module _ {J : Type 0} ⦃j : Json J⦄ {D : Type 0} ⦃f : Floating D⦄ where
  -- The connectivity flags that the display shows for a status are the four booleans of its JSON:
  -- `gateway_reachable`, `dns_reachable`, `dns_resolves` and `wan_reachable`, false where missing.
  pub flags_displayed :
      (m : SatData D) (root : J) (wall : ℕ)
      → let shown = update_snapshot m (status_snapshot root wall) in
        let conn = j.get root (codes "connectivity") in
        (shown.gw_up ≡ holds (item conn (codes "gateway_reachable")))
        × (shown.dns_up ≡ holds (item conn (codes "dns_reachable")))
        × (shown.dns_resolves ≡ holds (item conn (codes "dns_resolves")))
        × (shown.wan_up ≡ holds (item (j.get root (codes "wan")) (codes "wan_reachable")))
  unfolding update_snapshot status_snapshot conn_flags
  flags_displayed m root wall = flags_kept _ _ _ _
