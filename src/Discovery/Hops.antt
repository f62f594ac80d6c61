-- ===== src/Discovery/Hops.antt =====
-- What a trace leaves behind, for any answers of the network.
use mathlib.Core.Path.{subst}
use embedded_network_monitor.Prelude.{
  ℕ, zero, suc, ◌+◌, ◌≤◌, ◌<◌, ◌≡◌, refl, sym, ◌∙◌, ◌≢◌, ◌⊎◌, inl, inr, true, not, ◌&&◌, Option,
  none, some, List, [], ◌∷◌, ◌++◌, arith, ltb, leb, ◌==◌, Bool-cases, Bytes, length, get_or,
  length-append, ==_iff,
}
use embedded_network_monitor.Prelude.Floating.{Floating}
use embedded_network_monitor.NetState.{WanDiscovery}
use embedded_network_monitor.Discovery.Trace.{
  max_hops, hop_of, blank_wan, add_hop, note_wan, hop_seen, from_target, trace_from, trace_wan,
}

module _ {A : Type 0} where
  get_or-end : (xs : List A) (x d : A) (m : ℕ) → length xs ≡ m → get_or (xs ++ x ∷ []) m d ≡ x
  get_or-end [] x d zero e = refl
  get_or-end [] x d (suc m) e = absurd (omega arith)
  get_or-end (y ∷ ys) x d zero e = absurd (omega arith)
  get_or-end (y ∷ ys) x d (suc m) e = get_or-end ys x d m (omega arith)

  get_or-before :
      (xs ys : List A) (d : A) (i : ℕ) → i < length xs → get_or (xs ++ ys) i d ≡ get_or xs i d
  get_or-before [] ys d i lt = absurd (omega arith)
  get_or-before (x ∷ xs) ys d zero lt = refl
  get_or-before (x ∷ xs) ys d (suc i) lt = get_or-before xs ys d i (omega arith)

module _ {D : Type 0} ⦃f : Floating D⦄ (ntoa : ℕ → Bytes) (gw target : ℕ)
    (probe : ℕ → Option (ℕ × D)) where
  -- There is a hop for each probe so far, and a WAN that is reached is the answer of one of them, not
  -- the first, from another address than the gateway.
  abbrev pub Follows : WanDiscovery D → Type 0
  Follows w =
      ((i : ℕ)
        → i < length w.hops
        → get_or w.hops i (hop_of ntoa none) ≡ hop_of ntoa (probe (suc i)))
      × ((w.wan_reachable ≡ 0)
          ⊎ ((i ip : ℕ) × (1 ≤ i)
              × (i < length w.hops)
              × (probe (suc i) ≡ some (ip, w.wan_latency_ms))
              × (ip ≢ gw)))

  add_hop-Follows :
      (w : WanDiscovery D) (m : ℕ)
      → length w.hops ≡ m
      → m < max_hops
      → Follows w
      → Follows (add_hop (hop_of ntoa (probe (suc m))) w)
        × (length (add_hop (hop_of ntoa (probe (suc m))) w).hops ≡ suc m)
  unfolding add_hop
  add_hop-Follows w m size room h =
      let hop = hop_of ntoa (probe (suc m)) in
      let fits : ltb (length w.hops) max_hops ≡ true = ground arith in
      let grown = length-append w.hops (hop ∷ []) in
      rw fits (
        (
          λ i lt. elim (Bool-cases (i == m)) [
            | inl e ↦
                let here : i ≡ m = (==_iff i m).0 e in
                rw here (get_or-end w.hops hop (hop_of ntoa none) m size)
            | inr e ↦
                let before : i < length w.hops = ground (arith, grown) in
                get_or-before w.hops (hop ∷ []) (hop_of ntoa none) i before ∙ h.0 i before
          ],
          elim h.1 [
            | inl e ↦ inl e
            | inr (i, ip, ge, lt, e, ne) ↦ inr (i, ip, ge, omega (arith, grown), e, ne)
          ],
        ),
        omega (arith, grown),
      )

  note_wan-Follows :
      (ip : ℕ) (lat : D) (w : WanDiscovery D) (m : ℕ)
      → probe (suc m) ≡ some (ip, lat)
      → length w.hops ≡ suc m
      → Follows w
      → Follows (note_wan gw ip lat w) × (length (note_wan gw ip lat w).hops ≡ suc m)
  unfolding note_wan
  note_wan-Follows ip lat w m e size h =
      elim (Bool-cases (not (ip == gw) && leb 2 (length w.hops))) [
        | inl beyond ↦
            let ne : ip ≢ gw = ground (arith, beyond) in
            let ge : 1 ≤ m = ground (arith, beyond, size) in
            rw beyond ((h.0, inr (m, ip, ge, omega (arith, size), e, ne)), size)
        | inr near ↦ rw near (h, size)
      ]

  hop_seen-Follows :
      (o : Option (ℕ × D)) (w : WanDiscovery D) (m : ℕ)
      → o ≡ probe (suc m)
      → length w.hops ≡ m
      → m < max_hops
      → Follows w
      → Follows (hop_seen ntoa gw o w) × (length (hop_seen ntoa gw o w).hops ≡ suc m)
  unfolding hop_seen
  hop_seen-Follows none w m e size room h =
      subst
        (λ p.
          Follows (add_hop (hop_of ntoa p) w) × (length (add_hop (hop_of ntoa p) w).hops ≡ suc m))
        (sym e) (add_hop-Follows w m size room h)
  hop_seen-Follows (some (ip, lat)) w m e size room h =
      let added =
        subst
          (λ p.
            Follows (add_hop (hop_of ntoa p) w) × (length (add_hop (hop_of ntoa p) w).hops ≡ suc m))
          (sym e) (add_hop-Follows w m size room h) in
      note_wan-Follows ip lat (add_hop (hop_of ntoa (some (ip, lat))) w) m (sym e) added.1 added.0

  trace_from-Follows :
      (n m : ℕ) (w : WanDiscovery D)
      → length w.hops ≡ m
      → m + n ≤ max_hops
      → Follows w
      → Follows (trace_from ntoa gw target probe n (suc m) w)
        × (length (trace_from ntoa gw target probe n (suc m) w).hops ≤ max_hops)
  unfolding trace_from
  trace_from-Follows zero m w size room h = (h, omega (arith, size))
  trace_from-Follows (suc n) m w size room h =
      let (seen, grown) = hop_seen-Follows (probe (suc m)) w m refl size (omega arith) h in
      elim (Bool-cases (from_target target (probe (suc m)))) [
        | inl e ↦ rw e (seen, omega (arith, grown))
        | inr e ↦ rw e (trace_from-Follows n (suc m) _ grown (omega arith) seen)
      ]

  -- Whatever the network answers, a trace leaves at most four hops, the i-th of which is the answer to
  -- the i-th probe; and if it says that the WAN is reachable, then one of them behind the first is the
  -- answer of another address than the gateway, with the latency that is reported for the WAN.
  pub trace_wan-Follows :
      Follows (trace_wan ntoa gw target probe)
      × (length (trace_wan ntoa gw target probe).hops ≤ max_hops)
  unfolding trace_wan
  trace_wan-Follows =
      trace_from-Follows max_hops 0 blank_wan refl (omega arith)
        (λ i lt. absurd (omega arith), inl refl)
