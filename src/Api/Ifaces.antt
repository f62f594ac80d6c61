-- ===== src/Api/Ifaces.antt =====
-- What the satellite encoder reads of the interfaces in the document of `api_json_status`.
use native.Mathlib.Nat.{mod-eq_of_lt}
use embedded_network_monitor.Prelude.{
  ℕ, ◌%◌, ◌^◌, ◌<◌, ◌≡◌, refl, ap, ap₂, ◌∙◌, inl, inr, ◌&&◌, Option, some, List, [], ◌∷◌, map,
  arith, ltb, if◌then◌else◌, Bool-cases, Bytes, codes, All,
}
use embedded_network_monitor.Prelude.Floating.{Floating}
use embedded_network_monitor.Prelude.Int.{ℤ, pos, negsuc}
use embedded_network_monitor.Alerts.State.{info, warning, critical, AlertEntry, Severity}
use embedded_network_monitor.NetState.{IfaceState, NetRates}
use embedded_network_monitor.Api.Json.{
  set_flag, severity_code, number_item, signed_item, json_iface, wifi_fields, rates_json, wifi_json,
  alert_json,
}
use embedded_network_monitor.Satellite.Json.{
  Json, number_or, signed_byte_or, iface_data, item, holds, text_of, signal, ifaces_data,
  max_severity_from,
}
use embedded_network_monitor.Api.Cjson.{Builder, IsBuilder, same_key, tolower}
use embedded_network_monitor.Api.Built.{get-object, null-object}
use embedded_network_monitor.Api.Shown.{
  IsExact, byte_of, IsInt8, highest, IsIfaceRange, shown_iface,
}

module _ {D : Type 0} {J : Type 0} ⦃f : Floating D⦄ ⦃j : Json J⦄ ⦃b : Builder D J⦄
    (laws : IsBuilder D J) (exact : IsExact D) where
  -- a number that was stored, read into an unsigned type
  pub number-stored :
      (w n old : ℕ) → n < 2 ^ 53 → n < 2 ^ w → number_or {J = J} w (some (number_item D n)) old ≡ n
  unfolding number_or
  number-stored w n old h fits =
      rw (laws.whole_number w (f.of_ℕ n), exact w n h fits) (mod-eq_of_lt fits)

  signed-stored : (z : ℤ) → IsInt8 z → signed_byte_or {J = J} (some (signed_item D z)) ≡ byte_of z
  unfolding signed_byte_or
  signed-stored (pos n) h = rw (laws.byte_pos n h) (omega arith)
  signed-stored (negsuc n) h = rw (laws.byte_neg n h) (omega arith)

  pub flag-stored : (n : ℕ) → holds {J = J} (some (b.create_bool (set_flag n))) ≡ set_flag n
  unfolding holds
  flag-stored n = laws.true_bool (set_flag n)

  -- The signal is there for a wireless interface.
  signal-json_iface :
      (is : IfaceState D)
      → IsInt8 is.wifi.signal_dbm
      → signal {J = J} (item {J = J} (some (json_iface is)) (codes "wifi"))
        ≡ (if set_flag is.info.is_wireless then byte_of is.wifi.signal_dbm else 0)
  unfolding item json_iface wifi_fields same_key tolower signal wifi_json
  signal-json_iface is h = elim (Bool-cases (set_flag is.info.is_wireless)) [
    | inl e ↦
        rw (get-object D laws, e, null-object D laws)
          (rw (get-object D laws) (signed-stored is.wifi.signal_dbm h))
    | inr e ↦ rw (get-object D laws, e) refl
  ]

  -- the items of the interface that the encoder reads
  iface_items :
      (is : IfaceState D)
      → let at : Bytes → Option J = item (some (json_iface is)) in
        (at (codes "name") ≡ some (b.create_string is.info.name))
        × (at (codes "up") ≡ some (b.create_bool (set_flag is.info.is_up)))
        × (at (codes "running") ≡ some (b.create_bool (set_flag is.info.is_running)))
        × (at (codes "wireless") ≡ some (b.create_bool (set_flag is.info.is_wireless)))
        × (at (codes "speed_mbps") ≡ some (number_item D is.info.speed_mbps))
        × (at (codes "rates") ≡ some (rates_json is.rates))
  unfolding item json_iface same_key tolower
  iface_items is = (
    rw (get-object D laws) refl,
    rw (get-object D laws) refl,
    rw (get-object D laws) refl,
    rw (get-object D laws) refl,
    rw (get-object D laws) refl,
    rw (get-object D laws) refl,
  )

  rates_items :
      (rates : NetRates D)
      → let at : Bytes → Option J = item (some (rates_json rates)) in
        (at (codes "rx_bps") ≡ some (b.create_number rates.rx_bytes_per_sec))
        × (at (codes "tx_bps") ≡ some (b.create_number rates.tx_bytes_per_sec))
  unfolding item rates_json same_key tolower
  rates_items rates = (rw (get-object D laws) refl, rw (get-object D laws) refl)

  rate-stored : (d : D) → number_or {J = J} 32 (some (b.create_number d)) 0 ≡ f.to_ℕ 32 d % 2 ^ 32
  unfolding number_or
  rate-stored d = rw (laws.whole_number 32 d) refl

  -- The encoder reads the name, the flags, the rates, the speed and the signal of the interface.
  iface_data-json_iface :
      (is : IfaceState D) → IsIfaceRange is → iface_data {J = J} (json_iface is) ≡ shown_iface is
  unfolding iface_data text_of
  iface_data-json_iface is h =
      let (name, up, running, wireless, speed, rates) = iface_items is in
      let (rx, tx) = rates_items is.rates in
      rw
        (
          signal-json_iface is h.signal_fits,
          name,
          up,
          running,
          wireless,
          speed,
          rates,
          rx,
          tx,
          laws.text_string is.info.name,
          flag-stored is.info.is_up,
          flag-stored is.info.is_running,
          flag-stored is.info.is_wireless,
          rate-stored is.rates.rx_bytes_per_sec,
          rate-stored is.rates.tx_bytes_per_sec,
          number-stored 16 is.info.speed_mbps 0 (omega (arith, h.speed_fits)) h.speed_fits,
        )
        refl

  pub ifaces_data-map :
      (sts : List (IfaceState D))
      → All IsIfaceRange sts
      → ifaces_data {J = J} (map json_iface sts) ≡ map shown_iface sts
  unfolding ifaces_data
  ifaces_data-map [] h = refl
  ifaces_data-map (is ∷ sts) h =
      ap₂ (λ x xs. x ∷ xs) (iface_data-json_iface is h.0) (ifaces_data-map sts h.1)

  alert_items :
      (a : AlertEntry)
      → let at : Bytes → Option J = item (some (alert_json D a)) in
        (at (codes "severity") ≡ some (number_item D (severity_code a.severity)))
        × (at (codes "active") ≡ some (b.create_bool (set_flag a.active)))
  unfolding item alert_json same_key tolower
  alert_items a = (rw (get-object D laws) refl, rw (get-object D laws) refl)

  severity-stored :
      (s : Severity)
      → number_or {J = J} 8 (some (number_item D (severity_code s))) 0 ≡ severity_code s
  severity-stored info = number-stored 8 0 0 (omega arith) (omega arith)
  severity-stored warning = number-stored 8 1 0 (omega arith) (omega arith)
  severity-stored critical = number-stored 8 2 0 (omega arith) (omega arith)

  pub max_severity-highest :
      (entries : List AlertEntry) (top : ℕ)
      → max_severity_from {J = J} top (map (alert_json D) entries) ≡ highest top entries
  unfolding max_severity_from
  max_severity-highest [] top = refl
  max_severity-highest (a ∷ entries) top =
      let (sev, active) = alert_items a in
      let sev_of = number_or {J = J} 8 (item (some (alert_json D a)) (codes "severity")) 0 in
      let is_active = holds {J = J} (item (some (alert_json D a)) (codes "active")) in
      let stored : sev_of ≡ severity_code a.severity =
        ap (λ o. number_or 8 o 0) sev ∙ severity-stored a.severity in
      let flag : is_active ≡ set_flag a.active = ap holds active ∙ flag-stored a.active in
      ap₂
        (λ s t.
          max_severity_from {J = J} (if t && ltb top s then s else top)
            (map (alert_json D) entries))
        stored flag
      ∙ max_severity-highest entries _
