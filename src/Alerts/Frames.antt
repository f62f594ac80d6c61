-- ===== src/Alerts/Frames.antt =====
-- What each part of alerts_check leaves alone: the rows of counters that it does not use.
use embedded_network_monitor.Prelude.{
  ℕ, zero, suc, ◌+◌, ◌≤◌, ◌<◌, ◌≡◌, refl, sym, ap, ap₂, ◌∙◌, ◌≢◌, inl, inr, List, [], ◌∷◌, ◌++◌,
  arith, ◌==◌, Bool-cases, length, get_or, set, length-set, get_or-set_self, get_or-set_ne,
}
use embedded_network_monitor.Prelude.Floating.{Floating}
use embedded_network_monitor.NetState.{IfaceState, NetState}
use embedded_network_monitor.Alerts.Ignore.{is_ignored_iface}
use embedded_network_monitor.Alerts.State.{
  Alerts, Counters, no_counts, push_entry, push_alert, hyst_step, row, is_down, has_errors,
  check_down, check_errors, check_iface, check_ifaces, check_gateway, check_latency, check_dns,
}
use embedded_network_monitor.Alerts.Log.{IsLog, Raises, Raises-none, Raises-append}
use embedded_network_monitor.Alerts.Due.{
  due_down, due_errors, due_iface, due_ifaces, due_gateway, due_dns, check_down-Raises,
  check_errors-Raises,
}

-- From `s` to `t` only the counters `down` and `errors` of row `i` change.
record Touches (i : ℕ) (s t : Alerts) : Type 0 where
  size : length t.hyst ≡ length s.hyst
  others : (j : ℕ) → j ≢ i → row t j ≡ row s j
  gateway : (row t i).gateway ≡ (row s i).gateway
  dns : (row t i).dns ≡ (row s i).dns

Touches-set :
    (i : ℕ) (s t : Alerts) (r : Counters)
    → i < length s.hyst
    → t.hyst ≡ set s.hyst i r
    → r.gateway ≡ (row s i).gateway
    → r.dns ≡ (row s i).dns
    → Touches i s t
Touches-set i s t r h e g d = record {
  size = ap (length {A = Counters}) e ∙ length-set s.hyst i r;
  others = λ j n.
      ap (λ x. get_or x j no_counts) e ∙ get_or-set_ne s.hyst i j r no_counts (λ p. n (sym p));
  gateway = ap Counters.gateway now_row ∙ g;
  dns = ap Counters.dns now_row ∙ d;
}
  where
    now_row : row t i ≡ r
    now_row = ap (λ x. get_or x i no_counts) e ∙ get_or-set_self s.hyst i r no_counts h

Touches-refl : (i : ℕ) (s : Alerts) → Touches i s s
Touches-refl i s = record { size = refl; others = λ j n. refl; gateway = refl; dns = refl }

Touches-trans : (i : ℕ) (s t u : Alerts) → Touches i s t → Touches i t u → Touches i s u
Touches-trans i s t u p q = record {
  size = q.size ∙ p.size;
  others = λ j n. q.others j n ∙ p.others j n;
  gateway = q.gateway ∙ p.gateway;
  dns = q.dns ∙ p.dns;
}

-- what the loop over the interfaces leaves of row 0
pub record Kept (s t : Alerts) : Type 0 where
  pub same_size : length t.hyst ≡ length s.hyst
  pub gateway : (row t 0).gateway ≡ (row s 0).gateway
  pub dns : (row t 0).dns ≡ (row s 0).dns

Touches-Kept : (i : ℕ) (s t : Alerts) → Touches i s t → Kept s t
Touches-Kept zero s t p = record { same_size = p.size; gateway = p.gateway; dns = p.dns }
Touches-Kept (suc i) s t p = record {
  same_size = p.size;
  gateway = ap Counters.gateway (p.others 0 (omega arith));
  dns = ap Counters.dns (p.others 0 (omega arith));
}

module _ {D : Type 0} ⦃f : Floating D⦄ where
  hyst-check_down :
      (s : Alerts) (now i : ℕ) (iface : IfaceState D)
      → (check_down s now i iface).hyst
        ≡ set s.hyst i (record (row s i) { down = (hyst_step (is_down iface) (row s i).down).0 })
  unfolding check_down push_alert push_entry
  hyst-check_down s now i iface = elim (Bool-cases (hyst_step (is_down iface) (row s i).down).1) [
    | inl e ↦ rw e
    | inr e ↦ rw e
  ]

  hyst-check_errors :
      (s : Alerts) (now i : ℕ) (iface : IfaceState D)
      → (check_errors s now i iface).hyst
        ≡ set s.hyst i
            (record (row s i) { errors = (hyst_step (has_errors iface) (row s i).errors).0 })
  unfolding check_errors push_alert push_entry
  hyst-check_errors s now i iface =
      elim (Bool-cases (hyst_step (has_errors iface) (row s i).errors).1) [
        | inl e ↦ rw e
        | inr e ↦ rw e
      ]

  check_down-Touches :
      (s : Alerts) (now i : ℕ) (iface : IfaceState D)
      → i < length s.hyst
      → Touches i s (check_down s now i iface)
  check_down-Touches s now i iface h =
      Touches-set i s _ _ h (hyst-check_down s now i iface) refl refl

  check_errors-Touches :
      (s : Alerts) (now i : ℕ) (iface : IfaceState D)
      → i < length s.hyst
      → Touches i s (check_errors s now i iface)
  check_errors-Touches s now i iface h =
      Touches-set i s _ _ h (hyst-check_errors s now i iface) refl refl

  check_iface-Touches :
      (s : Alerts) (now i : ℕ) (iface : IfaceState D)
      → i < length s.hyst
      → Touches i s (check_iface s now i iface)
  unfolding check_iface
  check_iface-Touches s now i iface h =
      elim (Bool-cases (is_ignored_iface s.ignore iface.info.name)) [
        | inl e ↦ rw e (Touches-refl i s)
        | inr e ↦
            let p = check_down-Touches s now i iface h in
            rw e (
              Touches-trans i s (check_down s now i iface) _ p (
                check_errors-Touches (check_down s now i iface) now i iface
                  (omega (arith, p.size))))
      ]

  -- the counter of errors is not touched by the check of the interface's state
  errors-check_down :
      (s : Alerts) (now i : ℕ) (iface : IfaceState D)
      → i < length s.hyst
      → due_errors (row (check_down s now i iface) i) now iface ≡ due_errors (row s i) now iface
  unfolding due_errors
  errors-check_down s now i iface h =
      rw (hyst-check_down s now i iface) (rw (get_or-set_self s.hyst i _ no_counts h))

  check_iface-Raises :
      (s : Alerts) (now i : ℕ) (iface : IfaceState D)
      → IsLog s
      → i < length s.hyst
      → Raises s (due_iface s.ignore (row s i) now iface) (check_iface s now i iface)
  unfolding check_iface due_iface
  check_iface-Raises s now i iface v h =
      elim (Bool-cases (is_ignored_iface s.ignore iface.info.name)) [
        | inl e ↦ rw e (Raises-none s s.hyst v)
        | inr e ↦
            let t = check_down s now i iface in
            let p = check_down-Raises s now i iface v in
            let q = check_errors-Raises t now i iface p.valid in
            rw e (
              Raises-append s t _ (due_down (row s i) now iface) _ p
                (rw (errors-check_down s now i iface h) at q))
      ]

  pub due_ifaces-congr :
      (ifaces : List (IfaceState D)) (s t : Alerts) (now i : ℕ)
      → t.ignore ≡ s.ignore
      → ((j : ℕ) → i ≤ j → row t j ≡ row s j)
      → due_ifaces t now i ifaces ≡ due_ifaces s now i ifaces
  unfolding due_ifaces
  due_ifaces-congr [] s t now i e h = refl
  due_ifaces-congr (iface ∷ ifaces) s t now i e h =
      ap₂ ◌++◌ (ap₂ (λ g r. due_iface g r now iface) e (h i (omega arith)))
        (due_ifaces-congr ifaces s t now (suc i) e (λ j le. h j (omega arith)))

  pub check_ifaces-Raises :
      (ifaces : List (IfaceState D)) (s : Alerts) (now i : ℕ)
      → IsLog s
      → i + length ifaces ≤ length s.hyst
      → Raises s (due_ifaces s now i ifaces) (check_ifaces s now i ifaces)
        × Kept s (check_ifaces s now i ifaces)
  unfolding check_ifaces due_ifaces
  check_ifaces-Raises [] s now i v h =
      (Raises-none s s.hyst v, record { same_size = refl; gateway = refl; dns = refl })
  check_ifaces-Raises (iface ∷ ifaces) s now i v h =
      let t = check_iface s now i iface in
      let touched = check_iface-Touches s now i iface (omega arith) in
      let p = check_iface-Raises s now i iface v (omega arith) in
      let k = Touches-Kept i s t touched in
      let (q, l) = check_ifaces-Raises ifaces t now (suc i) p.valid (omega (arith, touched.size)) in
      let same =
        due_ifaces-congr ifaces s t now (suc i) p.ignored
          (λ j le. touched.others j (omega arith)) in
      (
        Raises-append s t _ (due_iface s.ignore (row s i) now iface) _ p (rw same at q),
        record {
          same_size = l.same_size ∙ k.same_size;
          gateway = l.gateway ∙ k.gateway;
          dns = l.dns ∙ k.dns;
        },
      )

  pub due_gateway-congr :
      (r r' : Counters) (now : ℕ) (state : NetState D)
      → r'.gateway ≡ r.gateway
      → due_gateway r' now state ≡ due_gateway r now state
  unfolding due_gateway
  due_gateway-congr r r' now state e = rw e

  pub due_dns-congr :
      (r r' : Counters) (now : ℕ) (state : NetState D)
      → r'.dns ≡ r.dns
      → due_dns r' now state ≡ due_dns r now state
  unfolding due_dns
  due_dns-congr r r' now state e = rw e

  pub row-check_gateway :
      (s : Alerts) (now : ℕ) (state : NetState D)
      → 0 < length s.hyst
      → row (check_gateway s now state) 0 ≡ record (row s 0) {
        gateway = (hyst_step (state.connectivity.gateway_reachable == 0) (row s 0).gateway).0;
      }
  unfolding check_gateway push_alert push_entry
  row-check_gateway s now state h =
      elim (Bool-cases
        (hyst_step (state.connectivity.gateway_reachable == 0) (row s 0).gateway).1) [
          | inl e ↦ rw e (get_or-set_self s.hyst 0 _ no_counts h)
          | inr e ↦ rw e (get_or-set_self s.hyst 0 _ no_counts h)
        ]

  pub hyst-check_latency :
      (s : Alerts) (now : ℕ) (state : NetState D) → (check_latency s now state).hyst ≡ s.hyst
  unfolding check_latency push_alert push_entry
  hyst-check_latency s now state = ground arith

  pub row-check_dns :
      (s : Alerts) (now : ℕ) (state : NetState D)
      → 0 < length s.hyst
      → row (check_dns s now state) 0 ≡ record (row s 0) {
        dns = (hyst_step (state.connectivity.dns_reachable == 0) (row s 0).dns).0;
      }
  unfolding check_dns push_alert push_entry
  row-check_dns s now state h =
      elim (Bool-cases (hyst_step (state.connectivity.dns_reachable == 0) (row s 0).dns).1) [
        | inl e ↦ rw e (get_or-set_self s.hyst 0 _ no_counts h)
        | inr e ↦ rw e (get_or-set_self s.hyst 0 _ no_counts h)
      ]

  pub length-check_gateway :
      (s : Alerts) (now : ℕ) (state : NetState D)
      → length (check_gateway s now state).hyst ≡ length s.hyst
  unfolding check_gateway push_alert push_entry
  length-check_gateway s now state =
      elim (Bool-cases
        (hyst_step (state.connectivity.gateway_reachable == 0) (row s 0).gateway).1) [
          | inl e ↦ rw e (length-set s.hyst 0 _)
          | inr e ↦ rw e (length-set s.hyst 0 _)
        ]

  pub length-check_dns :
      (s : Alerts) (now : ℕ) (state : NetState D)
      → length (check_dns s now state).hyst ≡ length s.hyst
  unfolding check_dns push_alert push_entry
  length-check_dns s now state =
      elim (Bool-cases (hyst_step (state.connectivity.dns_reachable == 0) (row s 0).dns).1) [
        | inl e ↦ rw e (length-set s.hyst 0 _)
        | inr e ↦ rw e (length-set s.hyst 0 _)
      ]
