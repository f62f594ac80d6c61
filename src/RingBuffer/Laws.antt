-- ===== src/RingBuffer/Laws.antt =====
-- ring_buffer.c against the list of the samples that it holds, oldest first.
use native.Mathlib.Nat.{le_trans}
use native.Mathlib.Decide.{dec_lt}
use embedded_network_monitor.Prelude.{
  get_or_past, ℕ, ◌+◌, ◌-◌, ◌%◌, ◌<◌, ◌≤◌, ◌≡◌, refl, sym, ap, ap₂, ◌∙◌, true, false, Option, none,
  some, List, [], ◌∷◌, ◌++◌, arith, append-nil, append_assoc, length, get_or, length-set, leb, ◌==◌,
}
use embedded_network_monitor.Prelude.Int.{pos, negsuc}
use embedded_network_monitor.Prelude.Floating.{Floating}
use embedded_network_monitor.Prelude.Window.{
  contents, last, contents-push, get_or-window, length-window, last-last-append, last_all,
}
use embedded_network_monitor.RingBuffer.{Ring, size, push, push_data, get, get_data, push_all}

-- bytes of storage behind `data`, in entries
abbrev pub backing : {D : Type 0} → Option (List D) → ℕ
backing none = 0
backing (some xs) = length xs

-- What a ring satisfies after `ring_buffer_init` with a large enough array.
pub record IsValid {D : Type 0} (rb : Ring D) : Type 0 where
  pub some_room : 0 < size rb
  pub storage : size rb ≤ backing rb.buf
  pub head_in : rb.head < size rb
  pub count_in : rb.count ≤ size rb

-- a pointer to a valid ring
abbrev pub AllValid : {D : Type 0} → Option (Ring D) → Type 0
AllValid none = Unit
AllValid (some rb) = IsValid rb

module _ {D : Type 0} ⦃f : Floating D⦄ where
  abbrev pub stored : Option (List D) → ℕ → ℕ → ℕ → List D
  stored none cap head count = []
  stored (some xs) cap head count = contents f.zero_d xs cap head count

  -- the samples that a ring holds, oldest first
  abbrev pub samples : Ring D → List D
  samples rb = stored rb.buf (size rb) rb.head rb.count

  push_data-IsValid :
      (b : Option (List D)) (rb : Ring D) (v : D)
      → rb.buf ≡ b
      → IsValid rb
      → IsValid (push_data b rb v)
  unfolding push_data
  push_data-IsValid none rb v e h = ground (arith, h.some_room, h.storage)
  push_data-IsValid (some xs) rb v e h = ground (arith, length-set xs rb.head v)

  samples-push_data :
      (b : Option (List D)) (rb : Ring D) (v : D)
      → rb.buf ≡ b
      → IsValid rb
      → samples (push_data b rb v)
        ≡ last (size rb) (stored b (size rb) rb.head rb.count ++ (v ∷ []))
  unfolding push_data
  samples-push_data none rb v e h = ground (arith, h.some_room, h.storage)
  samples-push_data (some xs) rb v e h =
      let open_ring : (size rb == 0) ≡ false = ground arith in
      rw open_ring
        (contents-push f.zero_d xs (size rb) rb.head rb.count v (ground arith) h.head_in h.count_in)

  size-push_data : (b : Option (List D)) (rb : Ring D) (v : D) → size (push_data b rb v) ≡ size rb
  unfolding push_data
  size-push_data none rb v = refl
  size-push_data (some xs) rb v = ground arith

  length-stored :
      (b : Option (List D)) (cap head count : ℕ) → length (stored b cap head count) ≤ count
  length-stored none cap head count = omega arith
  length-stored (some xs) cap head count =
      omega (arith, length-window f.zero_d xs cap ((head + cap - count) % cap) count)

  get_data-eq-sample :
      (b : Option (List D)) (rb : Ring D) (i : ℕ)
      → rb.buf ≡ b
      → IsValid rb
      → get_data b rb (pos i) ≡ get_or (stored b (size rb) rb.head rb.count) i f.zero_d
  unfolding get_data
  get_data-eq-sample none rb i e h = refl
  get_data-eq-sample (some xs) rb i e h =
      let start : (rb.head + size rb - rb.count) % size rb < size rb = omega (arith, h.some_room) in
      elim (dec_lt i rb.count) [
        | yes p ↦
            let inside : leb rb.count i ≡ false = ground arith in
            rw inside (sym (get_or-window f.zero_d xs (size rb) _ rb.count i start p))
        | no p ↦
            let outside : leb rb.count i ≡ true = ground arith in
            rw outside (
              sym (
                get_or_past _ i f.zero_d
                  (omega (arith, length-stored (some xs) (size rb) rb.head rb.count))))
      ]

  -- Pushing any series of samples into a valid ring keeps the ring valid, and leaves it holding the
  -- last `capacity` of what it held and what was pushed, oldest first.
  pub samples-push_all :
      (rb : Ring D) (vs : List D)
      → IsValid rb
      → (rb' : Ring D) × (push_all (some rb) vs ≡ some rb')
        × IsValid rb'
        × (samples rb' ≡ last (size rb) (samples rb ++ vs))
  unfolding push_all push
  samples-push_all rb [] h = (
    rb,
    refl,
    h,
    sym (
        rw append-nil
          (last_all (size rb) (samples rb) (le_trans (length-stored rb.buf _ _ _) h.count_in))),
  )
  samples-push_all rb (v ∷ vs) h =
      let rb₁ = push_data rb.buf rb v in
      let (rb', run, valid, held) =
        samples-push_all rb₁ vs (push_data-IsValid rb.buf rb v refl h) in
      (
        rb',
        run,
        valid,
        held
            ∙ ap₂ (λ n s. last n (s ++ vs)) (size-push_data rb.buf rb v)
                (samples-push_data rb.buf rb v refl h)
            ∙ last-last-append (size rb) (samples rb ++ (v ∷ [])) vs
            ∙ ap (last (size rb)) (append_assoc (samples rb) (v ∷ []) vs),
      )

  get_data_neg : (b : Option (List D)) (rb : Ring D) (i : ℕ) → get_data b rb (negsuc i) ≡ f.zero_d
  unfolding get_data
  get_data_neg none rb i = refl
  get_data_neg (some xs) rb i = ground arith

  -- Reading index `i` gives the `i`-th oldest sample; a negative index, or one at or past the
  -- count, gives 0.
  pub get-eq-sample :
      (rb : Ring D) (i : ℕ)
      → IsValid rb
      → (get (some rb) (pos i) ≡ get_or (samples rb) i f.zero_d)
        × (get (some rb) (negsuc i) ≡ f.zero_d)
  unfolding get
  get-eq-sample rb i h = (get_data-eq-sample rb.buf rb i refl h, get_data_neg rb.buf rb i)
