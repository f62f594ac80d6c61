-- ===== src/Prelude/Window.antt =====
-- The bytes, samples or entries that a circular array holds, oldest first. Every history buffer of
-- the program overwrites its oldest entry; this is the one proof they share.
use native.Mathlib.Nat.{mod-add-mod, mod-eq_of_lt, mod-eq-sub-mod, add-zero}
use native.Mathlib.Decide.{dec_lt}
use Prim.Native.Nat.{ℕ, zero, suc, ◌+◌, ◌-◌, ◌%◌, ◌≤◌, ◌<◌, min}
use Prim.Native.Nat.add
use mathlib.Core.Path.{◌≡◌, refl, sym, ap, ap₂, ◌∙◌}
use mathlib.Core.Logic.{◌≢◌}
use mathlib.Core.List.{List, [], ◌∷◌, ◌++◌}
use native.Mathlib.Omega.{arith}
use embedded_network_monitor.Prelude.Tests.{ltb, if◌then◌else◌}
use embedded_network_monitor.Prelude.Lists.{
  length, get_or, set, drop, length-append, length-drop, drop-append, drop-drop, get_or-set_self,
  get_or-set_ne,
}

-- the last `n` entries of a list
abbrev pub last {ℓ} : {A : Type ℓ} → ℕ → List A → List A
last n xs = drop (length xs - n) xs

pub last_all {ℓ} : {A : Type ℓ} (n : ℕ) (xs : List A) → length xs ≤ n → last n xs ≡ xs
last_all n xs h = let e : length xs - n ≡ 0 = omega arith in rw e

module _ {ℓ} {A : Type ℓ} (d : A) where
  -- `n` entries from index `h` on, round the end at `cap`
  abbrev pub window : List A → ℕ → ℕ → ℕ → List A
  window buf cap h zero = []
  window buf cap h (suc n) = get_or buf h d ∷ window buf cap ((h + 1) % cap) n

  pub length-window : (buf : List A) (cap h n : ℕ) → length (window buf cap h n) ≡ n
  length-window buf cap h zero = refl
  length-window buf cap h (suc n) = ap suc (length-window buf cap ((h + 1) % cap) n)

  next_mod : (cap h n : ℕ) → ((h + 1) % cap + n) % cap ≡ (h + suc n) % cap
  next_mod cap h n = rw mod-add-mod (ap (λ k. k % cap) (omega arith))

  pub get_or-window :
      (buf : List A) (cap h n i : ℕ)
      → h < cap
      → i < n
      → get_or (window buf cap h n) i d ≡ get_or buf ((h + i) % cap) d
  get_or-window buf cap h zero i hh hi = absurd (omega arith)
  get_or-window buf cap h (suc n) zero hh hi = rw (add-zero, mod-eq_of_lt hh)
  get_or-window buf cap h (suc n) (suc i) hh hi =
      get_or-window buf cap ((h + 1) % cap) n i (omega arith) (omega arith)
      ∙ ap (λ k. get_or buf k d) (next_mod cap h i)

  -- The last entry of a window, split off.
  window-snoc :
      (buf : List A) (cap h n : ℕ)
      → h < cap
      → window buf cap h (suc n) ≡ window buf cap h n ++ get_or buf ((h + n) % cap) d ∷ []
  window-snoc buf cap h zero hh = rw (add-zero, mod-eq_of_lt hh)
  window-snoc buf cap h (suc n) hh =
      ap (λ w. get_or buf h d ∷ w)
        (window-snoc buf cap ((h + 1) % cap) n (omega arith)
          ∙ ap (λ k. window buf cap ((h + 1) % cap) n ++ get_or buf k d ∷ []) (next_mod cap h n))

  -- Two places of a window that fits the array are different.
  places-ne : (cap h j k : ℕ) → h < cap → j < k → k < cap → (h + k) % cap ≢ (h + j) % cap
  places-ne cap h j k hh hj hk = grind arith

  -- A write outside a window leaves it as it is.
  window-away :
      (buf : List A) (cap i : ℕ) (x : A) (n h : ℕ)
      → h < cap
      → ((k : ℕ) → k < n → i ≢ (h + k) % cap)
      → window (set buf i x) cap h n ≡ window buf cap h n
  window-away buf cap i x zero h hh away = refl
  window-away buf cap i x (suc n) h hh away =
      ap₂ ◌∷◌
        (get_or-set_ne buf i h x d
          (λ e. away 0 (omega arith) (e ∙ sym (rw (add-zero, mod-eq_of_lt hh)))))
        (window-away buf cap i x n ((h + 1) % cap) (omega arith)
          (λ k lt e. away (suc k) (omega arith) (e ∙ next_mod cap h k)))

  -- So a write just past a window extends it.
  window-set :
      (n cap : ℕ) (buf : List A) (h : ℕ) (x : A)
      → n < cap
      → h < cap
      → cap ≤ length buf
      → window (set buf ((h + n) % cap) x) cap h (suc n) ≡ window buf cap h n ++ x ∷ []
  window-set n cap buf h x hn hh hs =
      let i = (h + n) % cap in
      window-snoc (set buf i x) cap h n hh
      ∙ ap₂ (λ w y. w ++ y ∷ [])
          (window-away buf cap i x n h hh (λ k lt. places-ne cap h k n hh lt hn))
          (get_or-set_self buf i x d (omega arith))

  -- the same, for a place that is given by another expression
  window_to :
      (cap : ℕ) (buf : List A) (x : A) (n h i : ℕ)
      → n < cap
      → h < cap
      → cap ≤ length buf
      → (h + n) % cap ≡ i
      → window (set buf i x) cap h (suc n) ≡ window buf cap h n ++ x ∷ []
  window_to cap buf x n h i hn hh hs e =
      ap (λ k. window (set buf k x) cap h (suc n)) (sym e) ∙ window-set n cap buf h x hn hh hs

  -- index of the oldest entry
  abbrev pub oldest : ℕ → ℕ → ℕ → ℕ
  oldest cap head count = (head + cap - count) % cap

  abbrev pub contents : List A → ℕ → ℕ → ℕ → List A
  contents buf cap head count = window buf cap (oldest cap head count) count

  oldest_below :
      (cap head count : ℕ) → head < cap → count ≤ cap → (oldest cap head count + count) % cap ≡ head
  oldest_below cap head count hh hc = grind arith

  oldest-next :
      (cap head count : ℕ)
      → head < cap
      → count < cap
      → oldest cap ((head + 1) % cap) (suc count) ≡ oldest cap head count
  oldest-next cap head count hh hc = elim (dec_lt (head + 1) cap) [
    | yes p ↦ rw (mod-eq_of_lt p) (ap (λ k. k % cap) (omega arith))
    | no p ↦
        let wrap : (head + 1) % cap ≡ 0 = grind arith in
        let less = mod-eq-sub-mod {n = head + cap - count} {m = cap} (omega arith) in
        let short : cap - suc count ≡ head + cap - count - cap = omega arith in
        rw (wrap, add.zero cap) (ap (λ k. k % cap) short ∙ sym less)
  ]

  oldest_full : (cap head : ℕ) → head < cap → oldest cap head cap ≡ head
  oldest_full cap head hh = grind arith

  contents-push_short :
      (buf : List A) (cap head count : ℕ) (x : A)
      → cap ≤ length buf
      → head < cap
      → count < cap
      → contents (set buf head x) cap ((head + 1) % cap) (suc count)
        ≡ last cap (contents buf cap head count ++ (x ∷ []))
  contents-push_short buf cap head count x hb hh hc =
      let extended =
        window_to cap buf x count (oldest cap head count) head hc (omega arith) hb
          (oldest_below cap head count hh (omega arith)) in
      rw (oldest-next cap head count hh hc) (
        extended
        ∙ sym (
            last_all cap _ (
              omega (
                arith,
                length-append (window buf cap (oldest cap head count) count) (x ∷ []),
                length-window buf cap (oldest cap head count) count,
              ))))

  contents-push_full :
      (buf : List A) (k head : ℕ) (x : A)
      → suc k ≤ length buf
      → head < suc k
      → contents (set buf head x) (suc k) ((head + 1) % suc k) (suc k)
        ≡ last (suc k) (contents buf (suc k) head (suc k) ++ (x ∷ []))
  contents-push_full buf k head x hb hh =
      let len = length-window buf (suc k) ((head + 1) % suc k) k in
      let one : length (window buf (suc k) head (suc k) ++ (x ∷ [])) - suc k ≡ 1 =
        omega (arith, len, length-append (window buf (suc k) ((head + 1) % suc k) k) (x ∷ [])) in
      let now : oldest (suc k) ((head + 1) % suc k) (suc k) ≡ (head + 1) % suc k =
        oldest_full (suc k) ((head + 1) % suc k) (omega arith) in
      rw (now, oldest_full (suc k) head hh)
        (rw one (
          window_to (suc k) buf x k ((head + 1) % suc k) head (omega arith) (omega arith) hb
            around))
    where
      around : ((head + 1) % suc k + k) % suc k ≡ head
      around = grind arith

  -- A push appends an entry, and the oldest goes once there are more than `cap`.
  pub contents-push :
      (buf : List A) (cap head count : ℕ) (x : A)
      → cap ≤ length buf
      → head < cap
      → count ≤ cap
      → contents
          (set buf head x)
          cap
          ((head + 1) % cap)
          (if ltb count cap then count + 1 else count)
        ≡ last cap (contents buf cap head count ++ (x ∷ []))
  contents-push buf zero head count x hb hh hc = absurd (omega arith)
  contents-push buf (suc k) head count x hb hh hc = elim (dec_lt count (suc k)) [
    | yes p ↦
        let grown : (if ltb count (suc k) then count + 1 else count) ≡ suc count = ground arith in
        rw grown (contents-push_short buf (suc k) head count x hb hh p)
    | no p ↦
        let full : count ≡ suc k = omega arith in
        let stays : (if ltb count (suc k) then count + 1 else count) ≡ suc k = ground arith in
        rw stays (rw full (contents-push_full buf k head x hb hh))
  ]

-- To keep the last `n` as one goes is to keep the last `n` in the end.
pub last-last-append {ℓ} :
    {A : Type ℓ} (n : ℕ) (xs ys : List A) → last n (last n xs ++ ys) ≡ last n (xs ++ ys)
last-last-append n xs ys =
    let j = length xs - n in
    let joined : drop j xs ++ ys ≡ drop j (xs ++ ys) = sym (drop-append j xs ys (omega arith)) in
    rw joined (
      drop-drop j _ (xs ++ ys)
      ∙ ap (λ k. drop k (xs ++ ys)) (omega (arith, length-append xs ys, length-drop j (xs ++ ys))))

pub length-last {ℓ} : {A : Type ℓ} (n : ℕ) (xs : List A) → length (last n xs) ≡ min n (length xs)
length-last n xs = omega (arith, length-drop (length xs - n) xs)
