-- ===== src/Tables/Hex.antt =====
-- What `%x` gives for a hexadecimal numeral that stands in front of a text.
use native.Mathlib.Nat.{pow-suc}
use embedded_network_monitor.Prelude.{
  ℕ, zero, suc, ◌+◌, ◌*◌, ◌/◌, ◌%◌, ◌^◌, ◌≤◌, ◌<◌, ◌≡◌, refl, ap, ◌∙◌, inl, inr, Bool, true, false,
  ◌||◌, some, List, [], ◌∷◌, ◌++◌, arith, ltb, leb, ◌==◌, if◌then◌else◌, Bool-cases, Bytes, length,
  All, length-append, All-append,
}
use embedded_network_monitor.Tables.Scanf.{
  is_hex, hex_of, hex_value, skip_hex, strip_0x, scan_hex_digits, sscanf, Conversion, starts_hex,
  scan_hex, hex, store, number,
}
use embedded_network_monitor.Config.Text.{is_digit, is_space, skip_space}

-- the first byte is no hexadecimal digit
abbrev EndsHex : Bytes → Type 0
EndsHex [] = Unit
EndsHex (c ∷ s) = is_hex c ≡ false

abbrev pub EndsDec : Bytes → Type 0
EndsDec [] = Unit
EndsDec (c ∷ s) = is_digit c ≡ false

abbrev pub EndsWord : Bytes → Type 0
EndsWord [] = Unit
EndsWord (c ∷ s) = is_space c ≡ true

-- a byte that `%s` takes
abbrev pub IsWordByte : ℕ → Type 0
IsWordByte c = is_space c ≡ false

-- a hexadecimal digit, with upper-case letters or lower-case ones
abbrev hex_char : Bool → ℕ → ℕ
hex_char upper d = if ltb d 10 then 48 + d else if upper then 55 + d else 87 + d

-- `k` hexadecimal digits, as `%0<k>X` or `%0<k>x` prints a number that they hold
unfoldable pub hex_text : Bool → ℕ → ℕ → Bytes
hex_text upper zero n = []
hex_text upper (suc k) n = hex_text upper k (n / 16) ++ hex_char upper (n % 16) ∷ []

abbrev pub IsHex : ℕ → Type 0
IsHex c = is_hex c ≡ true

hex_char-IsHex : (upper : Bool) (d : ℕ) → d < 16 → IsHex (hex_char upper d)
hex_char-IsHex upper d h = ground arith

hex_of-hex_char : (upper : Bool) (d : ℕ) → d < 16 → hex_of (hex_char upper d) ≡ d
hex_of-hex_char upper d h = ground arith

pub hex_text-All : (upper : Bool) (k n : ℕ) → All IsHex (hex_text upper k n)
unfolding hex_text
hex_text-All upper zero n = tt
hex_text-All upper (suc k) n =
    All-append IsHex (hex_text upper k (n / 16)) _ (hex_text-All upper k (n / 16))
      (hex_char-IsHex upper (n % 16) (omega arith), tt)

pub length-hex_text : (upper : Bool) (k n : ℕ) → length (hex_text upper k n) ≡ k
unfolding hex_text
length-hex_text upper zero n = refl
length-hex_text upper (suc k) n = omega (
  arith,
  length-append (hex_text upper k (n / 16)) (hex_char upper (n % 16) ∷ []),
  length-hex_text upper k (n / 16),
)

hex_value-snoc :
    (s : Bytes) (acc c : ℕ)
    → All IsHex s
    → IsHex c
    → hex_value acc (s ++ c ∷ []) ≡ hex_value acc s * 16 + hex_of c
unfolding hex_value
hex_value-snoc [] acc c h d = rw d refl
hex_value-snoc (x ∷ s) acc c h d = rw h.0 (hex_value-snoc s (acc * 16 + hex_of x) c h.1 d)

hex_value-hex_text : (upper : Bool) (k n : ℕ) → n < 16 ^ k → hex_value 0 (hex_text upper k n) ≡ n
unfolding hex_text
hex_value-hex_text upper zero n h = unfold hex_value in omega arith
hex_value-hex_text upper (suc k) n h =
    let less : n / 16 < 16 ^ k = omega (arith, pow-suc 16 k) in
    hex_value-snoc (hex_text upper k (n / 16)) 0 (hex_char upper (n % 16))
      (hex_text-All upper k (n / 16)) (hex_char-IsHex upper (n % 16) (omega arith))
    ∙ omega (
      arith,
      hex_value-hex_text upper k (n / 16) less,
      hex_of-hex_char upper (n % 16) (omega arith),
    )

-- A text that begins with no digit adds nothing.
hex_value-append :
    (s t : Bytes) (acc : ℕ) → All IsHex s → EndsHex t → hex_value acc (s ++ t) ≡ hex_value acc s
unfolding hex_value
hex_value-append [] [] acc h e = refl
hex_value-append [] (c ∷ t) acc h e = rw e refl
hex_value-append (x ∷ s) t acc h e = rw h.0 (hex_value-append s t (acc * 16 + hex_of x) h.1 e)

skip_hex-append : (s t : Bytes) → All IsHex s → EndsHex t → skip_hex (s ++ t) ≡ t
unfolding skip_hex
skip_hex-append [] [] h e = refl
skip_hex-append [] (c ∷ t) h e = rw e refl
skip_hex-append (x ∷ s) t h e = rw h.0 (skip_hex-append s t h.1 e)

-- a digit is no white space, no sign and no `x`
abbrev IsPlain : ℕ → Type 0
IsPlain c =
    (is_space c ≡ false)
    × ((c == b'-') ≡ false)
    × ((c == b'+') ≡ false)
    × ((c == b'x' || c == b'X') ≡ false)

pub IsHex-IsPlain : (c : ℕ) → IsHex c → IsPlain c
IsHex-IsPlain c h = unfold is_space in (ground arith, ground arith, ground arith, ground arith)

strip_0x-hex : (c d : ℕ) (s : Bytes) → IsHex d → strip_0x (c ∷ d ∷ s) ≡ c ∷ d ∷ s
unfolding strip_0x
strip_0x-hex c d s h =
    let (p, q, r, no_x) = IsHex-IsPlain d h in
    rw no_x (elim (Bool-cases (c == b'0')) [ inl e ↦ rw e refl | inr e ↦ rw e refl ])

strip_0x-end :
    (c d : ℕ) (s : Bytes) → (d == b'x' || d == b'X') ≡ false → strip_0x (c ∷ d ∷ s) ≡ c ∷ d ∷ s
unfolding strip_0x
strip_0x-end c d s h =
    rw h (elim (Bool-cases (c == b'0')) [ inl e ↦ rw e refl | inr e ↦ rw e refl ])

scan_hex_digits-text :
    (s t : Bytes)
    → All IsHex s
    → starts_hex (s ++ t) ≡ true
    → EndsHex t
    → hex_value 0 s < 2 ^ 32
    → scan_hex_digits false (s ++ t) ≡ some (hex_value 0 s, t)
unfolding scan_hex_digits
scan_hex_digits-text s t h start e small =
    let fits : leb (2 ^ 32) (hex_value 0 s) ≡ false = ground arith in
    rw (start, hex_value-append s t 0 h e, skip_hex-append s t h e, fits) refl

-- `%x` on a numeral of at least one digit, of which the second byte is no `x`
sscanf-hex :
    (format : List Conversion) (c : ℕ) (s t : Bytes)
    → All IsHex (c ∷ s)
    → EndsHex t
    → hex_value 0 (c ∷ s) < 2 ^ 32
    → strip_0x (c ∷ s ++ t) ≡ c ∷ s ++ t
    → sscanf (hex ∷ format) (c ∷ s ++ t) ≡ number (hex_value 0 (c ∷ s)) ∷ sscanf format t
unfolding sscanf skip_space scan_hex store
sscanf-hex format c s t h e small plain =
    let (no_space, no_minus, no_plus, no_x) = IsHex-IsPlain c h.0 in
    rw
      (
        no_space,
        no_minus,
        no_plus,
        plain,
        scan_hex_digits-text (c ∷ s) t h (unfold starts_hex in h.0) e small,
      )
      refl

sscanf-hex_list :
    (format : List Conversion) (s t : Bytes)
    → All IsHex s
    → EndsHex t
    → hex_value 0 s < 2 ^ 32
    → 2 ≤ length s
    → sscanf (hex ∷ format) (s ++ t) ≡ number (hex_value 0 s) ∷ sscanf format t
sscanf-hex_list format [] t h e small two = absurd (omega arith)
sscanf-hex_list format (c ∷ []) t h e small two = absurd (omega arith)
sscanf-hex_list format (c ∷ d ∷ s) t h e small two =
    sscanf-hex format c (d ∷ s) t h e small (strip_0x-hex c d (s ++ t) h.1.0)

-- `%x` reads a number back that was printed with `k` digits, two at least and eight at most.
pub sscanf-hex_text :
    (format : List Conversion) (upper : Bool) (k n : ℕ) (t : Bytes)
    → n < 16 ^ k
    → n < 2 ^ 32
    → 2 ≤ k
    → EndsHex t
    → sscanf (hex ∷ format) (hex_text upper k n ++ t) ≡ number n ∷ sscanf format t
sscanf-hex_text format upper k n t h small two e =
    let value = hex_value-hex_text upper k n h in
    sscanf-hex_list format (hex_text upper k n) t (hex_text-All upper k n) e (omega (arith, value))
      (omega (arith, length-hex_text upper k n))
    ∙ ap (λ v. number v ∷ sscanf format t) value

sscanf-hex_digits :
    (format : List Conversion) (s : Bytes) (b : ℕ) (t : Bytes)
    → All IsHex s
    → is_hex b ≡ false
    → (b == b'x' || b == b'X') ≡ false
    → hex_value 0 s < 2 ^ 32
    → 1 ≤ length s
    → sscanf (hex ∷ format) (s ++ (b ∷ t)) ≡ number (hex_value 0 s) ∷ sscanf format (b ∷ t)
sscanf-hex_digits format [] b t h e no_x small one = absurd (omega arith)
sscanf-hex_digits format (c ∷ []) b t h e no_x small one =
    sscanf-hex format c [] (b ∷ t) h e small (strip_0x-end c b t no_x)
sscanf-hex_digits format (c ∷ d ∷ s) b t h e no_x small one =
    sscanf-hex_list format (c ∷ d ∷ s) (b ∷ t) h e small (omega arith)

-- Any number of digits that hold the number, before a byte that is neither a digit nor an `x`.
pub sscanf-hex_numeral :
    (format : List Conversion) (upper : Bool) (k n b : ℕ) (t : Bytes)
    → n < 16 ^ k
    → n < 2 ^ 32
    → 1 ≤ k
    → is_hex b ≡ false
    → (b == b'x' || b == b'X') ≡ false
    → sscanf (hex ∷ format) (hex_text upper k n ++ (b ∷ t)) ≡ number n ∷ sscanf format (b ∷ t)
sscanf-hex_numeral format upper k n b t h small one e no_x =
    let value = hex_value-hex_text upper k n h in
    sscanf-hex_digits format (hex_text upper k n) b t (hex_text-All upper k n) e no_x
      (omega (arith, value)) (omega (arith, length-hex_text upper k n))
    ∙ ap (λ v. number v ∷ sscanf format (b ∷ t)) value
