-- ===== src/Tables/Numerals.antt =====
-- What the conversions give for a numeral or a word that stands in front of a text.
use embedded_network_monitor.Prelude.{
  ℕ, zero, suc, ◌+◌, ◌-◌, ◌*◌, ◌^◌, ◌≤◌, ◌<◌, ◌≡◌, refl, ap, ◌∙◌, inl, inr, Bool, true, false, not,
  ◌&&◌, some, List, [], ◌∷◌, ◌++◌, arith, leb, ◌==◌, Bool-cases, Bytes, length, All,
}
use embedded_network_monitor.Tables.Scanf.{
  unsigned, sscanf, Conversion, span_word, scan_hex, hex, store, number, scan_word, word, text,
  space,
}
use embedded_network_monitor.Config.Text.{
  is_digit, is_space, skip_space, digits_value, decimal_nat, starts_digit, digits,
}
use embedded_network_monitor.Collector.Proc.{skip_digits, scan_signed, scan_digits}
use embedded_network_monitor.Config.Numbers.{IsDigit, digits_value-digits, digits-All, digits_pos}
use embedded_network_monitor.Tables.Hex.{
  EndsDec, EndsWord, IsWordByte, hex_text, IsHex, hex_text-All, IsHex-IsPlain,
}

-- spaces
abbrev pub blanks : ℕ → Bytes → Bytes
blanks zero s = s
blanks (suc n) s = 32 ∷ blanks n s

pub blanks-append : (n : ℕ) (s t : Bytes) → blanks n s ++ t ≡ blanks n (s ++ t)
blanks-append zero s t = refl
blanks-append (suc n) s t = ap (λ r. 32 ∷ r) (blanks-append n s t)

pub skip_space-blanks : (n : ℕ) (s : Bytes) → skip_space (blanks n s) ≡ skip_space s
unfolding skip_space is_space
skip_space-blanks zero s = refl
skip_space-blanks (suc n) s = skip_space-blanks n s

skip_digits-append : (s t : Bytes) → All IsDigit s → EndsDec t → skip_digits (s ++ t) ≡ t
unfolding skip_digits
skip_digits-append [] [] h e = refl
skip_digits-append [] (c ∷ t) h e = rw e refl
skip_digits-append (x ∷ s) t h e =
    let digit : is_digit x ≡ true = unfold is_digit in ground arith in
    rw digit (skip_digits-append s t h.1 e)

pub digits_value-append :
    (s t : Bytes) (acc : ℕ)
    → All IsDigit s
    → EndsDec t
    → digits_value acc (s ++ t) ≡ digits_value acc s
unfolding digits_value
digits_value-append [] [] acc h e = refl
digits_value-append [] (c ∷ t) acc h e = rw e refl
digits_value-append (x ∷ s) t acc h e =
    let digit : is_digit x ≡ true = unfold is_digit in ground arith in
    rw digit (digits_value-append s t (acc * 10 + (x - 48)) h.1 e)

scan_digits-text :
    (w : ℕ) (s t : Bytes)
    → All IsDigit s
    → starts_digit (s ++ t) ≡ true
    → EndsDec t
    → digits_value 0 s < 2 ^ w
    → scan_digits w false (s ++ t) ≡ some (digits_value 0 s, t)
unfolding scan_digits
scan_digits-text w s t h start e small =
    let fits : leb (2 ^ w) (digits_value 0 s) ≡ false = ground arith in
    rw (start, digits_value-append s t 0 h e, skip_digits-append s t h e, fits) refl

-- `%u` and the 64 bits of `%llu` on a list of digits
pub scan_signed-digits :
    (w : ℕ) (s t : Bytes)
    → All IsDigit s
    → 0 < length s
    → EndsDec t
    → digits_value 0 s < 2 ^ w
    → scan_signed w (skip_space (s ++ t)) ≡ some (digits_value 0 s, t)
unfolding skip_space scan_signed
scan_signed-digits w [] t h full e small = absurd (omega arith)
scan_signed-digits w (c ∷ s) t h full e small =
    let digit : is_digit c ≡ true = unfold is_digit in ground arith in
    let plain : is_space c ≡ false = unfold is_space in ground arith in
    let no_minus : (c == b'-') ≡ false = ground arith in
    let no_plus : (c == b'+') ≡ false = ground arith in
    rw (plain, no_minus, no_plus)
      (scan_digits-text w (c ∷ s) t h (unfold starts_digit in digit) e small)

-- a number in decimal
pub scan_signed-decimal_nat :
    (w n : ℕ) (t : Bytes)
    → EndsDec t
    → n < 2 ^ w
    → scan_signed w (skip_space (decimal_nat n ++ t)) ≡ some (n, t)
unfolding decimal_nat
scan_signed-decimal_nat w n t e small =
    let value = digits_value-digits (suc n) n (omega arith) in
    scan_signed-digits w (digits (suc n) n) t (digits-All (suc n) n)
      (digits_pos (suc n) n (omega arith)) e (omega (arith, value))
    ∙ ap (λ v. some (v, t)) value

pub span_word-append :
    (room : ℕ) (s t : Bytes)
    → All IsWordByte s
    → EndsWord t
    → length s ≤ room
    → span_word room (s ++ t) ≡ (s, t)
unfolding span_word
span_word-append zero [] t h e fits = refl
span_word-append zero (c ∷ s) t h e fits = absurd (omega arith)
span_word-append (suc room) [] [] h e fits = refl
span_word-append (suc room) [] (c ∷ t) h e fits = rw e refl
span_word-append (suc room) (c ∷ s) t h e fits =
    rw (h.0, span_word-append room s t h.1 e (omega arith)) refl

-- `%<room>s` behind white space
pub sscanf-word :
    (format : List Conversion) (room : ℕ) (s t : Bytes)
    → All IsWordByte s
    → 0 < length s
    → EndsWord t
    → length s ≤ room
    → sscanf (word room ∷ format) (s ++ t) ≡ text s ∷ sscanf format t
unfolding sscanf store scan_word skip_space
sscanf-word format room [] t h full e fits = absurd (omega arith)
sscanf-word format room (c ∷ s) t h full e fits =
    let not_empty : (length (c ∷ s) == 0) ≡ false = ground arith in
    rw (h.0, span_word-append room (c ∷ s) t h e fits, not_empty) refl

skip_space_again : (s : Bytes) → skip_space (skip_space s) ≡ skip_space s
unfolding skip_space
skip_space_again [] = refl
skip_space_again (c ∷ s) = elim (Bool-cases (is_space c)) [
  | inl e ↦ rw e (skip_space_again s)
  | inr e ↦ rw e (unfold skip_space in rw e refl)
]

skip_space_twice : (n : ℕ) (s : Bytes) → skip_space (skip_space (blanks n s)) ≡ skip_space s
skip_space_twice n s = rw skip_space-blanks (skip_space_again s)

-- White space in a format, before a conversion that skips it anyway.
pub sscanf-space_hex :
    (format : List Conversion) (n : ℕ) (s : Bytes)
    → sscanf (space ∷ hex ∷ format) (blanks n s) ≡ sscanf (hex ∷ format) s
unfolding sscanf
sscanf-space_hex format n s =
    ap (λ r. store number (sscanf format) (scan_hex r)) (skip_space_twice n s)

pub sscanf-space_word :
    (format : List Conversion) (room n : ℕ) (s : Bytes)
    → sscanf (space ∷ word room ∷ format) (blanks n s) ≡ sscanf (word room ∷ format) s
unfolding sscanf
sscanf-space_word format room n s =
    ap (λ r. store text (sscanf format) (scan_word room r)) (skip_space_twice n s)

pub sscanf-unsigned :
    (format : List Conversion) (v : ℕ) (t : Bytes)
    → EndsDec t
    → v < 2 ^ 32
    → sscanf (unsigned ∷ format) (decimal_nat v ++ t) ≡ number v ∷ sscanf format t
unfolding sscanf
sscanf-unsigned format v t e small =
    ap (store number (sscanf format)) (scan_signed-decimal_nat 32 v t e small)
    ∙ (unfold store in refl)

pub sscanf-decimal_nat :
    (format : List Conversion) (n v : ℕ) (t : Bytes)
    → EndsDec t
    → v < 2 ^ 32
    → sscanf (space ∷ unsigned ∷ format) (blanks n (decimal_nat v ++ t))
      ≡ number v ∷ sscanf format t
unfolding sscanf
sscanf-decimal_nat format n v t e small =
    ap (λ r. store number (sscanf format) (scan_signed 32 r))
      (skip_space_twice n (decimal_nat v ++ t))
    ∙ ap (store number (sscanf format)) (scan_signed-decimal_nat 32 v t e small)
    ∙ (unfold store in refl)

All-IsWordByte : (s : Bytes) → All IsHex s → All IsWordByte s
All-IsWordByte [] h = tt
All-IsWordByte (c ∷ s) h = ((IsHex-IsPlain c h.0).0, All-IsWordByte s h.1)

pub hex_text-word : (upper : Bool) (k n : ℕ) → All IsWordByte (hex_text upper k n)
hex_text-word upper k n = All-IsWordByte (hex_text upper k n) (hex_text-All upper k n)

abbrev pub all_word : Bytes → Bool
all_word [] = true
all_word (c ∷ s) = not (is_space c) && all_word s

-- A test for it.
pub All-IsWordByte-test : (s : Bytes) → all_word s ≡ true → All IsWordByte s
All-IsWordByte-test [] h = tt
All-IsWordByte-test (c ∷ s) h =
    let here : is_space c ≡ false = ground arith in
    let rest : all_word s ≡ true = ground arith in (here, All-IsWordByte-test s rest)
