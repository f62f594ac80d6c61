-- ===== src/Collector/Merge.antt =====
-- The merge of a new enumeration of the interfaces: it stays inside the array, and keeps every
-- interface at its index, by which its histories are kept.
use embedded_network_monitor.Prelude.{
  ℕ, zero, suc, ◌+◌, ◌≤◌, ◌≡◌, refl, sym, ap, ◌∙◌, ◌⊎◌, inl, inr, true, false, Option, none, some,
  List, [], ◌∷◌, ◌++◌, arith, ltb, leb, if◌then◌else◌, Bool-cases, Option-cases, Bytes, str_eq,
  str_eq→eq, length, length-append,
}
use mathlib.Core.Option
use mathlib.Core.Path.{subst}
use embedded_network_monitor.Prelude.Int.{pos}
use embedded_network_monitor.Prelude.Floating.{Floating}
use embedded_network_monitor.NetState.{
  NetStats, IfaceInfo, ArpEntry, IfaceState, WanDiscovery, max_interfaces,
}
use embedded_network_monitor.Config.Entries.{Config}
use embedded_network_monitor.Collector.State.{Collector, Clock, find_iface, modify}
use embedded_network_monitor.Collector.Lookup.{length-modify}
use embedded_network_monitor.Collector.Proc.{parse_proc_net_dev}
use embedded_network_monitor.Collector.Fast.{store_stats}
use embedded_network_monitor.Collector.Medium.{Probe}
use embedded_network_monitor.Collector.Slow.{
  listed, new_iface, add_iface, merge_found, merge_one, merge, probes, probe_dns, wan_step,
  slow_timer,
}
use embedded_network_monitor.Collector.Start.{init, load_infra_config, new_ifaces}

-- The count is that of the interfaces, and they fit the array.
pub record IsCounted {D : Type 0} (c : Collector D) : Type 0 where
  pub counted : c.net.num_ifaces ≡ pos (length c.net.ifaces)
  pub fits : length c.net.ifaces ≤ max_interfaces

-- `t` has the interfaces of `c` at their indices.
abbrev pub Keeps : {D : Type 0} → Collector D → Collector D → Type 0
Keeps c t =
    (name : Bytes) (k : ℕ)
    → find_iface c.net.ifaces name ≡ some k
    → find_iface t.net.ifaces name ≡ some k

module _ {D : Type 0} where
  -- Found at the head, or behind it.
  find_iface-cons :
      (st : IfaceState D) (sts : List (IfaceState D)) (name : Bytes) (k : ℕ)
      → find_iface (st ∷ sts) name ≡ some k
      → ((str_eq st.info.name name ≡ true) × (k ≡ 0))
        ⊎ ((i : ℕ) × (str_eq st.info.name name ≡ false)
            × (find_iface sts name ≡ some i)
            × (k ≡ suc i))
  unfolding find_iface
  find_iface-cons st sts name k h = elim (Bool-cases (str_eq st.info.name name)) [
    | inl e ↦ inl (e, ground arith)
    | inr e ↦ elim (Option-cases (find_iface sts name)) [
      | inl e₁ ↦ absurd (ground arith)
      | inr (i, e₁) ↦ inr (i, e, e₁, ground arith)
    ]
  ]

  find_iface-append :
      (sts ends : List (IfaceState D)) (name : Bytes) (k : ℕ)
      → find_iface sts name ≡ some k
      → find_iface (sts ++ ends) name ≡ some k
  unfolding find_iface
  find_iface-append [] ends name k h = absurd (ground arith)
  find_iface-append (st ∷ sts) ends name k h = elim (find_iface-cons st sts name k h) [
    | inl (e, z) ↦ rw (e, z) refl
    | inr (i, e, e₁, z) ↦ rw (e, z, find_iface-append sts ends name i e₁) refl
  ]

  -- New information for an interface, under its name, does not change where a name is found.
  find_iface-info :
      (sts : List (IfaceState D)) (j : ℕ) (info : IfaceInfo) (name : Bytes)
      → find_iface sts info.name ≡ some j
      → find_iface (modify sts j (λ st. record st { info = info })) name ≡ find_iface sts name
  unfolding find_iface modify
  find_iface-info [] j info name h = refl
  find_iface-info (st ∷ sts) zero info name h = elim (find_iface-cons st sts info.name zero h) [
    | inl (e, z) ↦ rw (str_eq→eq st.info.name info.name e) refl
    | inr (i, e, e₁, z) ↦ absurd (omega arith)
  ]
  find_iface-info (st ∷ sts) (suc j) info name h =
      elim (find_iface-cons st sts info.name (suc j) h) [
        | inl (e, z) ↦ absurd (omega arith)
        | inr (i, e, e₁, z) ↦
            let at_j : find_iface sts info.name ≡ some j = e₁ ∙ ap some (omega arith) in
            ap (λ o. if str_eq st.info.name name then some 0 else Option.map suc o)
              (find_iface-info sts j info name at_j)
      ]

length-new_ifaces :
    (D : Type 0) ⦃f : Floating D⦄ (infos : List IfaceInfo)
    → length (new_ifaces {D = D} infos) ≡ length infos
unfolding new_ifaces
length-new_ifaces D [] = refl
length-new_ifaces D (info ∷ infos) = ap suc (length-new_ifaces D infos)

module _ {D : Type 0} ⦃f : Floating D⦄ where
  -- A merge has an outcome, which is in order and keeps the interfaces.
  abbrev Merged : Collector D → Option (Collector D) → Type 0
  Merged c o = (t : Collector D) × (o ≡ some t) × IsCounted t × Keeps c t

  add_iface-Merged :
      (info : IfaceInfo) (c : Collector D)
      → IsCounted c
      → Merged c (add_iface (pos (length c.net.ifaces)) info c)
  unfolding add_iface
  add_iface-Merged info c h = elim (Bool-cases (ltb (length c.net.ifaces) max_interfaces)) [
    | inl lt ↦ rw lt (
      _,
      refl,
      record {
        counted = ap pos (omega (arith, length-append c.net.ifaces (new_iface info ∷ [])));
        fits = ground (arith, length-append c.net.ifaces (new_iface info ∷ []), lt);
      },
      λ name k found. find_iface-append c.net.ifaces (new_iface info ∷ []) name k found,
    )
    | inr ge ↦ rw ge (c, refl, h, λ name k found. found)
  ]

  merge_found-Merged :
      (o : Option ℕ) (info : IfaceInfo) (c : Collector D)
      → o ≡ find_iface c.net.ifaces info.name
      → IsCounted c
      → Merged c (merge_found o info c)
  unfolding merge_found
  merge_found-Merged none info c e h =
      subst (λ z. Merged c (add_iface z info c)) (sym h.counted) (add_iface-Merged info c h)
  merge_found-Merged (some j) info c e h =
      let same = length-modify c.net.ifaces j (λ st. record st { info = info }) in
      (
        _,
        refl,
        record { counted = h.counted ∙ ap pos (sym same); fits = omega (arith, same, h.fits) },
        λ name k found. find_iface-info c.net.ifaces j info name (sym e) ∙ found,
      )

  merge-Merged : (infos : List IfaceInfo) (c : Collector D) → IsCounted c → Merged c (merge infos c)
  unfolding merge merge_one
  merge-Merged [] c h = (c, refl, h, λ n k e. e)
  merge-Merged (info ∷ infos) c h =
      let (t, e, ok, keeps) =
        merge_found-Merged (find_iface c.net.ifaces info.name) info c refl h in
      let (u, e₁, ok₁, keeps₁) = merge-Merged infos t ok in
      (
        u,
        ap (λ o. elim o [ none ↦ none | some v ↦ merge infos v ]) e ∙ e₁,
        ok₁,
        λ name k found. keeps₁ name k (keeps name k found),
      )

  -- The slow timer, on a collector whose count is that of its interfaces, writes inside the array
  -- whatever the enumeration returns: it has an outcome, with at most 8 interfaces, in which every
  -- interface is found at the index where it was.
  pub slow_timer-IsCounted :
      (infos : Option (List IfaceInfo)) (dns : Bytes → Bytes → ℕ → Probe D) (arp : List ArpEntry)
      (trace quality : Bytes → WanDiscovery D → WanDiscovery D) (c : Collector D)
      → IsCounted c
      → (t : Collector D) × (slow_timer infos dns arp trace quality c ≡ some t)
        × IsCounted t
        × Keeps c t
  unfolding slow_timer probes probe_dns wan_step
  slow_timer-IsCounted infos dns arp trace quality c h =
      let (t, e, ok, keeps) = merge-Merged (listed infos) c h in
      elim (Bool-cases (leb 2 (t.wan_tick + 1))) [
        | inl due ↦ rw (e, due) (_, refl, record { counted = ok.counted; fits = ok.fits }, keeps)
        | inr not_due ↦
            rw (e, not_due) (_, refl, record { counted = ok.counted; fits = ok.fits }, keeps)
      ]

  pub length-store_stats :
      (curs : List NetStats) (sts : List (IfaceState D))
      → length (store_stats curs sts) ≡ length sts
  unfolding store_stats
  length-store_stats [] sts = refl
  length-store_stats (cur ∷ curs) sts = elim (Option-cases (find_iface sts cur.name)) [
    | inl e ↦ rw e (length-store_stats curs sts)
    | inr (k, e) ↦ rw e (length-store_stats curs _ ∙ length-modify sts k _)
  ]

  -- After a start whose enumeration succeeds with at most 8 interfaces, the count is that of the
  -- interfaces, whatever the configuration and the statistics.
  pub init-IsCounted :
      (cfg : Option Config) (infos : List IfaceInfo) (net_dev : Option Bytes) (now : Clock)
      (c : Collector D)
      → length infos ≤ max_interfaces
      → IsCounted (init cfg (some infos) net_dev now c)
  unfolding init load_infra_config
  init-IsCounted cfg infos net_dev now c h =
      let same =
        length-store_stats (parse_proc_net_dev net_dev max_interfaces) (new_ifaces infos)
        ∙ length-new_ifaces D infos in
      record { counted = ap pos (sym same); fits = omega (arith, same) }
