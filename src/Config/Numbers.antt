-- ===== src/Config/Numbers.antt =====
-- config_get_int after config_set_int: what `%d` prints, `strtol` reads back.
use native.Mathlib.Nat.{pow-suc}
use native.Mathlib.Decide.{dec_lt}
use embedded_network_monitor.Prelude.{
  ℕ, zero, suc, ◌+◌, ◌-◌, ◌*◌, ◌/◌, ◌%◌, ◌^◌, ◌<◌, ◌≤◌, ◌≡◌, ◌∙◌, true, false, none, some, [], ◌∷◌,
  ◌++◌, arith, Bytes, str_eq_refl, ltb, ◌==◌, length, length-append, take_all, All, All-append,
}
use embedded_network_monitor.Prelude.Int.{ℤ, pos, negsuc}
use embedded_network_monitor.Config.Text.{
  is_digit, is_space, skip_space, digits_value, starts_digit, int_max, saturate_pos, saturate_neg,
  unsigned, signed, strtol, digits, decimal_nat, decimal,
}
use embedded_network_monitor.Config.Entries.{
  Config, key_max, get_int, int_of, get_str, set_int, set_str,
}
use embedded_network_monitor.Config.Laws.{has_place, get_value-set_key}

abbrev pub IsDigit : ℕ → Type 0
IsDigit c = (48 ≤ c) × (c ≤ 57)

pub digits-All : (f n : ℕ) → All IsDigit (digits f n)
unfolding digits
digits-All zero n = tt
digits-All (suc f) n = elim (dec_lt n 10) [
  | yes p ↦ let small : ltb n 10 ≡ true = ground arith in rw small ((omega arith, omega arith), tt)
  | no p ↦
      let large : ltb n 10 ≡ false = ground arith in
      rw large (
        All-append IsDigit (digits f (n / 10)) _ (digits-All f (n / 10))
          ((omega arith, omega arith), tt))
]

digits_value-snoc :
    (s : Bytes) (acc c : ℕ)
    → All IsDigit s
    → IsDigit c
    → digits_value acc (s ++ c ∷ []) ≡ digits_value acc s * 10 + (c - 48)
unfolding digits_value
digits_value-snoc [] acc c h d = ground arith
digits_value-snoc (x ∷ s) acc c h d =
    let digit : is_digit x ≡ true = ground arith in
    rw digit (digits_value-snoc s (acc * 10 + (x - 48)) c h.1 d)

pub digits_value-digits : (f n : ℕ) → n < f → digits_value 0 (digits f n) ≡ n
unfolding digits
digits_value-digits zero n h = absurd (omega arith)
digits_value-digits (suc f) n h = elim (dec_lt n 10) [
  | yes p ↦
      let small : ltb n 10 ≡ true = ground arith in rw small (unfold digits_value in ground arith)
  | no p ↦
      let large : ltb n 10 ≡ false = ground arith in
      let ih = digits_value-digits f (n / 10) (omega arith) in
      let here =
        digits_value-snoc (digits f (n / 10)) 0 (48 + n % 10) (digits-All f (n / 10))
          (omega arith) in
      rw large (here ∙ omega (arith, ih))
]

pos_of_two_digits : (k n : ℕ) → n < 10 ^ suc k → ¬ (n < 10) → 0 < k
pos_of_two_digits zero n h q = absurd (q h)
pos_of_two_digits (suc k) n h q = omega arith

pub length-digits : (k f n : ℕ) → n < 10 ^ k → 0 < k → length (digits f n) ≤ k
unfolding digits
length-digits zero f n h p = absurd (omega arith)
length-digits (suc k) zero n h p = omega arith
length-digits (suc k) (suc f) n h p = elim (dec_lt n 10) [
  | yes q ↦ let small : ltb n 10 ≡ true = ground arith in rw small (omega arith)
  | no q ↦
      let large : ltb n 10 ≡ false = ground arith in
      let tenth : n / 10 < 10 ^ k = omega (arith, pow-suc 10 k) in
      let step : length (digits f (n / 10)) ≤ k =
        length-digits k f (n / 10) tenth (pos_of_two_digits k n h q) in
      rw large (omega (arith, length-append (digits f (n / 10)) ((48 + n % 10) ∷ []), step))
]

pub starts_digit-All : (s : Bytes) → All IsDigit s → 0 < length s → starts_digit s ≡ true
unfolding starts_digit
starts_digit-All [] h p = absurd (omega arith)
starts_digit-All (c ∷ s) h p = ground arith

pub digits_pos : (f n : ℕ) → n < f → 0 < length (digits f n)
unfolding digits
digits_pos zero n h = absurd (omega arith)
digits_pos (suc f) n h = elim (dec_lt n 10) [
  | yes p ↦ let small : ltb n 10 ≡ true = ground arith in rw small (omega arith)
  | no p ↦
      let large : ltb n 10 ≡ false = ground arith in
      rw large (omega (arith, length-append (digits f (n / 10)) ((48 + n % 10) ∷ [])))
]

unsigned-decimal : (n : ℕ) → unsigned (decimal_nat n) ≡ some n
unfolding unsigned decimal_nat
unsigned-decimal n = rw (
  starts_digit-All (digits (suc n) n) (digits-All (suc n) n) (digits_pos (suc n) n (omega arith)),
  digits_value-digits (suc n) n (omega arith),
)

-- a text of digits is neither white space nor a sign in front
signed-digits :
    (s : Bytes) {n : ℕ} → All IsDigit s → unsigned s ≡ some n → strtol s ≡ some (saturate_pos n)
unfolding strtol signed skip_space is_space
signed-digits [] h u = unfold unsigned in cc
signed-digits (c ∷ s) h u =
    let plain : is_space c ≡ false = unfold is_space in ground arith in
    let no_minus : (c == b'-') ≡ false = ground arith in
    let no_plus : (c == b'+') ≡ false = ground arith in rw (plain, no_minus, no_plus, u)

-- the integers that an `int` holds
abbrev pub IsInt : ℤ → Type 0
IsInt (pos n) = n ≤ int_max
IsInt (negsuc n) = n ≤ int_max

pub strtol-decimal : (z : ℤ) → IsInt z → strtol (decimal z) ≡ some z
unfolding decimal
strtol-decimal (pos n) h =
    signed-digits (decimal_nat n) (unfold decimal_nat in digits-All (suc n) n) (unsigned-decimal n)
    ∙ unfold saturate_pos in ground arith
strtol-decimal (negsuc n) h =
    unfold strtol signed skip_space is_space in
    rw (unsigned-decimal (suc n)) (unfold saturate_neg in ground arith)

length-decimal : (z : ℤ) → IsInt z → length (decimal z) ≤ 11
unfolding decimal decimal_nat
length-decimal (pos n) h = omega (arith, length-digits 10 (suc n) n (omega arith) (omega arith))
length-decimal (negsuc n) h =
    omega (arith, length-digits 10 (suc (suc n)) (suc n) (omega arith) (omega arith))

int_of-some : (v : Bytes) {z : ℤ} (d : ℤ) → strtol v ≡ some z → int_of (some v) d ≡ z
unfolding int_of
int_of-some v d h = ground (arith, h)

-- `config_get_int` gives back, sign included, any `int` that `config_set_int` stored under a key of
-- at most 63 bytes, in a table that has the key or has room.
pub get_int-set_int :
    (cfg : Config) (key : Bytes) (value default_val : ℤ)
    → length key < key_max
    → has_place cfg key ≡ true
    → IsInt value
    → get_int (set_int (some cfg) (some key) value) (some key) default_val ≡ value
unfolding get_int set_int set_str get_str
get_int-set_int cfg key value default_val short place h =
    rw
      (
        get_value-set_key cfg key (decimal value) key none short,
        str_eq_refl key,
        place,
        take_all 127 (decimal value) (omega (arith, length-decimal value h)),
      )
      (int_of-some (decimal value) default_val (strtol-decimal value h))
