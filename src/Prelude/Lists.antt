-- ===== src/Prelude/Lists.antt =====
-- Arrays as lists with native indices, under the library's names.
use Prim.Native.Nat.{ℕ, zero, suc, ◌+◌, ◌-◌, ◌<◌, ◌≤◌, min}
use mathlib.Core.Path.{◌≡◌, refl, ap}
use mathlib.Core.Logic.{◌≢◌}
use mathlib.Core.List.{List, [], ◌∷◌, ◌++◌, map}
use mathlib.Core.Option.{Option, none, some}
use native.Mathlib.Omega.{arith}

module _ {ℓ} {A : Type ℓ} where
  abbrev pub length : List A → ℕ
  length [] = 0
  length (x ∷ xs) = suc (length xs)

  abbrev pub get_elem? : List A → ℕ → Option A
  get_elem? [] i = none
  get_elem? (x ∷ xs) zero = some x
  get_elem? (x ∷ xs) (suc i) = get_elem? xs i

  abbrev pub get_or : List A → ℕ → A → A
  get_or [] i d = d
  get_or (x ∷ xs) zero d = x
  get_or (x ∷ xs) (suc i) d = get_or xs i d

  -- A write out of range changes nothing.
  abbrev pub set : List A → ℕ → A → List A
  set [] i v = []
  set (x ∷ xs) zero v = v ∷ xs
  set (x ∷ xs) (suc i) v = x ∷ set xs i v

  abbrev pub take : ℕ → List A → List A
  take zero xs = []
  take (suc n) [] = []
  take (suc n) (x ∷ xs) = x ∷ take n xs

  abbrev pub drop : ℕ → List A → List A
  drop zero xs = xs
  drop (suc n) [] = []
  drop (suc n) (x ∷ xs) = drop n xs

  abbrev pub replicate : ℕ → A → List A
  replicate zero a = []
  replicate (suc n) a = a ∷ replicate n a

  -- Every element satisfies `P`.
  abbrev pub All {κ} : (A → Type κ) → List A → Type κ
  All P [] = Unit
  All P (x ∷ xs) = P x × All P xs

module _ {ℓ} {A : Type ℓ} where
  pub length-append : (xs ys : List A) → length (xs ++ ys) ≡ length xs + length ys
  length-append [] ys = omega arith
  length-append (x ∷ xs) ys = omega (arith, length-append xs ys)

  pub length-set : (xs : List A) (i : ℕ) (v : A) → length (set xs i v) ≡ length xs
  length-set [] i v = refl
  length-set (x ∷ xs) zero v = refl
  length-set (x ∷ xs) (suc i) v = ap suc (length-set xs i v)

  pub length-take : (n : ℕ) (xs : List A) → length (take n xs) ≡ min n (length xs)
  length-take zero xs = omega arith
  length-take (suc n) [] = omega arith
  length-take (suc n) (x ∷ xs) = omega (arith, length-take n xs)

  pub length-drop : (n : ℕ) (xs : List A) → length (drop n xs) ≡ length xs - n
  length-drop zero xs = omega arith
  length-drop (suc n) [] = omega arith
  length-drop (suc n) (x ∷ xs) = omega (arith, length-drop n xs)

  pub length-replicate : (n : ℕ) (a : A) → length (replicate n a) ≡ n
  length-replicate zero a = refl
  length-replicate (suc n) a = ap suc (length-replicate n a)

  pub take_all : (n : ℕ) (xs : List A) → length xs ≤ n → take n xs ≡ xs
  take_all zero [] h = refl
  take_all zero (x ∷ xs) h = absurd (omega arith)
  take_all (suc n) [] h = refl
  take_all (suc n) (x ∷ xs) h = ap (λ r. x ∷ r) (take_all n xs (omega arith))

  pub take-length-append : (xs ys : List A) → take (length xs) (xs ++ ys) ≡ xs
  take-length-append [] ys = refl
  take-length-append (x ∷ xs) ys = ap (λ r. x ∷ r) (take-length-append xs ys)

  pub drop-length-append : (xs ys : List A) → drop (length xs) (xs ++ ys) ≡ ys
  drop-length-append [] ys = refl
  drop-length-append (x ∷ xs) ys = drop-length-append xs ys

  pub drop-append : (n : ℕ) (xs ys : List A) → n ≤ length xs → drop n (xs ++ ys) ≡ drop n xs ++ ys
  drop-append zero xs ys h = refl
  drop-append (suc n) [] ys h = absurd (omega arith)
  drop-append (suc n) (x ∷ xs) ys h = drop-append n xs ys (omega arith)

  pub get_or-set_self :
      (xs : List A) (i : ℕ) (v d : A) → i < length xs → get_or (set xs i v) i d ≡ v
  get_or-set_self [] i v d h = absurd (omega arith)
  get_or-set_self (x ∷ xs) zero v d h = refl
  get_or-set_self (x ∷ xs) (suc i) v d h = get_or-set_self xs i v d (omega arith)

  pub get_or-set_ne :
      (xs : List A) (i j : ℕ) (v d : A) → i ≢ j → get_or (set xs i v) j d ≡ get_or xs j d
  get_or-set_ne [] i j v d h = refl
  get_or-set_ne (x ∷ xs) zero zero v d h = absurd (h refl)
  get_or-set_ne (x ∷ xs) zero (suc j) v d h = refl
  get_or-set_ne (x ∷ xs) (suc i) zero v d h = refl
  get_or-set_ne (x ∷ xs) (suc i) (suc j) v d h = get_or-set_ne xs i j v d (λ e. h (ap suc e))

  pub get_or_past : (xs : List A) (i : ℕ) (d : A) → length xs ≤ i → get_or xs i d ≡ d
  get_or_past [] i d h = refl
  get_or_past (x ∷ xs) zero d h = absurd (omega arith)
  get_or_past (x ∷ xs) (suc i) d h = get_or_past xs i d (omega arith)

  pub get_elem?-eq-get_or :
      (xs : List A) (i : ℕ) (d : A) → i < length xs → get_elem? xs i ≡ some (get_or xs i d)
  get_elem?-eq-get_or [] i d h = absurd (omega arith)
  get_elem?-eq-get_or (x ∷ xs) zero d h = refl
  get_elem?-eq-get_or (x ∷ xs) (suc i) d h = get_elem?-eq-get_or xs i d (omega arith)

pub All-append {ℓ κ} :
    {A : Type ℓ} (P : A → Type κ) (xs ys : List A) → All P xs → All P ys → All P (xs ++ ys)
All-append P [] ys h k = k
All-append P (x ∷ xs) ys h k = (h.0, All-append P xs ys h.1 k)

pub All-set {ℓ κ} :
    {A : Type ℓ} (P : A → Type κ) (xs : List A) (i : ℕ) {v : A}
    → P v
    → All P xs
    → All P (set xs i v)
All-set P [] i p h = h
All-set P (x ∷ xs) zero p h = (p, h.1)
All-set P (x ∷ xs) (suc i) p h = (h.0, All-set P xs i p h.1)

pub All-replicate {ℓ κ} :
    {A : Type ℓ} (P : A → Type κ) (n : ℕ) {v : A} → P v → All P (replicate n v)
All-replicate P zero p = tt
All-replicate P (suc n) p = (p, All-replicate P n p)

pub All-get_or {ℓ κ} :
    {A : Type ℓ} (P : A → Type κ) (xs : List A) (i : ℕ) (d : A)
    → All P xs
    → i < length xs
    → P (get_or xs i d)
All-get_or P [] i d h lt = absurd (omega arith)
All-get_or P (x ∷ xs) zero d h lt = h.0
All-get_or P (x ∷ xs) (suc i) d h lt = All-get_or P xs i d h.1 (omega arith)

pub drop-nil {ℓ} : {A : Type ℓ} (k : ℕ) → drop {A = A} k [] ≡ []
drop-nil zero = refl
drop-nil (suc k) = refl

pub drop-drop {ℓ} : {A : Type ℓ} (j k : ℕ) (xs : List A) → drop k (drop j xs) ≡ drop (j + k) xs
drop-drop zero k xs = let e : 0 + k ≡ k = omega arith in rw e
drop-drop (suc j) k [] = let e : suc j + k ≡ suc (j + k) = omega arith in rw e (drop-nil k)
drop-drop (suc j) k (x ∷ xs) =
    let e : suc j + k ≡ suc (j + k) = omega arith in rw e (drop-drop j k xs)

pub map-take {ℓ κ} :
    {A : Type ℓ} {B : Type κ} (g : A → B) (n : ℕ) (xs : List A)
    → take n (map g xs) ≡ map g (take n xs)
map-take g zero xs = refl
map-take g (suc n) [] = refl
map-take g (suc n) (x ∷ xs) = ap (λ r. g x ∷ r) (map-take g n xs)

pub length-map {ℓ κ} :
    {A : Type ℓ} {B : Type κ} (g : A → B) (xs : List A) → length (map g xs) ≡ length xs
length-map g [] = refl
length-map g (x ∷ xs) = ap suc (length-map g xs)

pub All-take {ℓ κ} :
    {A : Type ℓ} (P : A → Type κ) (n : ℕ) (xs : List A) → All P xs → All P (take n xs)
All-take P zero xs h = tt
All-take P (suc n) [] h = tt
All-take P (suc n) (x ∷ xs) h = (h.0, All-take P n xs h.1)

pub take-append {ℓ} :
    {A : Type ℓ} (n : ℕ) (xs ys : List A)
    → take n (xs ++ ys) ≡ take n xs ++ take (n - length (take n xs)) ys
take-append zero xs ys = refl
take-append (suc n) [] ys = let same : suc n ≡ suc n - 0 = omega arith in ap (λ m. take m ys) same
take-append (suc n) (x ∷ xs) ys =
    let same : suc n - suc (length (take n xs)) ≡ n - length (take n xs) = omega arith in
    rw (same, take-append n xs ys) refl

pub All-map {ℓ κ υ} :
    {A : Type ℓ} {B : Type κ} (P : B → Type υ) (g : A → B) (xs : List A)
    → All (λ x. P (g x)) xs
    → All P (map g xs)
All-map P g [] h = tt
All-map P g (x ∷ xs) h = (h.0, All-map P g xs h.1)
