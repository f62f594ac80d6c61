-- ===== src/Collector/Lookup.antt =====
-- Updates in place, and look-ups by name across them.
use embedded_network_monitor.Prelude.{
  ℕ, zero, suc, ◌<◌, ◌≡◌, refl, ap, ◌≢◌, some, List, [], ◌∷◌, arith, if◌then◌else◌, Bytes, str_eq,
  length, get_or,
}
use mathlib.Core.Option
use embedded_network_monitor.NetState.{IfaceState}
use embedded_network_monitor.Collector.State.{find_iface, modify}

module _ {ℓ} {A : Type ℓ} where
  pub length-modify : (xs : List A) (k : ℕ) (f : A → A) → length (modify xs k f) ≡ length xs
  unfolding modify
  length-modify [] k f = refl
  length-modify (x ∷ xs) zero f = refl
  length-modify (x ∷ xs) (suc k) f = ap suc (length-modify xs k f)

  pub get_or-modify_self :
      (xs : List A) (k : ℕ) (f : A → A) (d : A)
      → k < length xs
      → get_or (modify xs k f) k d ≡ f (get_or xs k d)
  unfolding modify
  get_or-modify_self [] k f d h = absurd (omega arith)
  get_or-modify_self (x ∷ xs) zero f d h = refl
  get_or-modify_self (x ∷ xs) (suc k) f d h = get_or-modify_self xs k f d (omega arith)

  pub get_or-modify_ne :
      (xs : List A) (i k : ℕ) (f : A → A) (d : A)
      → i ≢ k
      → get_or (modify xs i f) k d ≡ get_or xs k d
  unfolding modify
  get_or-modify_ne [] i k f d h = refl
  get_or-modify_ne (x ∷ xs) zero zero f d h = absurd (h refl)
  get_or-modify_ne (x ∷ xs) zero (suc k) f d h = refl
  get_or-modify_ne (x ∷ xs) (suc i) zero f d h = refl
  get_or-modify_ne (x ∷ xs) (suc i) (suc k) f d h = get_or-modify_ne xs i k f d (λ e. h (ap suc e))

-- An update that keeps the names does not change where a name is found.
pub find_iface-modify :
    {D : Type 0} (sts : List (IfaceState D)) (k : ℕ) (f : IfaceState D → IfaceState D)
    (name : Bytes)
    → ((st : IfaceState D) → (f st).info.name ≡ st.info.name)
    → find_iface (modify sts k f) name ≡ find_iface sts name
unfolding modify find_iface
find_iface-modify [] k f name h = refl
find_iface-modify (st ∷ sts) zero f name h = rw (h st) refl
find_iface-modify (st ∷ sts) (suc k) f name h =
    ap (λ o. if str_eq st.info.name name then some 0 else Option.map suc o)
      (find_iface-modify sts k f name h)
