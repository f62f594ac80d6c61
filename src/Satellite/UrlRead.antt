-- ===== src/Satellite/UrlRead.antt =====
-- What `parse_url` of satellite/host/src/sat_feeder.c takes out of a URL.
use mathlib.Core.Path.{subst}
use embedded_network_monitor.Prelude.{
  ℕ, suc, ◌+◌, ◌-◌, ◌≤◌, ◌<◌, ◌≡◌, refl, ap, ◌∙◌, ◌≢◌, inl, inr, true, false, none, some, [], ◌∷◌,
  ◌++◌, append_assoc, arith, ltb, ◌==◌, Option-cases, Bytes, codes, length, take, drop, All,
  length-append, take_all, All-append, ==_iff, starts_with,
}
use embedded_network_monitor.Config.Text.{
  atoi, int_max, decimal_nat, strtol, is_digit, digits, signed, skip_space, saturate_pos,
  digits_value, is_space, starts_digit, unsigned,
}
use embedded_network_monitor.Config.Entries.{copy_str}
use embedded_network_monitor.Prelude.Int.{ℤ, pos}
use embedded_network_monitor.Tables.Hex.{EndsDec}
use embedded_network_monitor.Tables.Numerals.{digits_value-append}
use embedded_network_monitor.Config.Numbers.{IsDigit, digits-All, digits_pos, digits_value-digits}
use embedded_network_monitor.Satellite.Url.{
  index_of, port_at, host_part, port_part, path_part, parse_rest, parse_url,
}

abbrev IsHostByte : ℕ → Type 0
IsHostByte c = (c ≢ b'/') × (c ≢ b':')

index_of-append :
    (c : ℕ) (s t : Bytes) → All (λ d. d ≢ c) s → index_of c (s ++ (c ∷ t)) ≡ some (length s)
unfolding index_of
index_of-append c [] t h = rw ((==_iff c c).1 refl) refl
index_of-append c (d ∷ s) t h =
    let other : (d == c) ≡ false = ground (arith, h.0) in rw (index_of-append c s t h.1, other) refl

index_of-none : (c : ℕ) (s : Bytes) → All (λ d. d ≢ c) s → index_of c s ≡ none
unfolding index_of
index_of-none c [] h = refl
index_of-none c (d ∷ s) h =
    let other : (d == c) ≡ false = ground (arith, h.0) in rw (index_of-none c s h.1, other) refl

drop-length-append : (s t : Bytes) (c : ℕ) → drop (length s + 1) (s ++ (c ∷ t)) ≡ t
drop-length-append [] t c = refl
drop-length-append (d ∷ s) t c =
    let next : length (d ∷ s) + 1 ≡ suc (length s + 1) = omega arith in
    ap (λ n. drop n (d ∷ s ++ (c ∷ t))) next ∙ drop-length-append s t c

take-length-cons : (s t : Bytes) → take (length s) (s ++ t) ≡ s
take-length-cons [] t = refl
take-length-cons (d ∷ s) t = ap (λ r. d ∷ r) (take-length-cons s t)

drop-length : (s t : Bytes) → drop (length s) (s ++ t) ≡ t
drop-length [] t = refl
drop-length (d ∷ s) t = drop-length s t

All-ne : (s : Bytes) → All IsHostByte s → All (λ d. d ≢ b':') s × All (λ d. d ≢ b'/') s
All-ne [] h = (tt, tt)
All-ne (c ∷ s) h = let (a, b) = All-ne s h.1 in ((h.0.1, a), (h.0.0, b))

index_of_behind :
    (c : ℕ) (s t : Bytes) (k : ℕ) → All (λ d. d ≢ c) s → index_of c (s ++ t) ≡ some k → length s ≤ k
unfolding index_of
index_of_behind c [] t k h e = omega arith
index_of_behind c (d ∷ s) t k h e =
    let other : (d == c) ≡ false = ground (arith, h.0) in
    elim (Option-cases (index_of c (s ++ t))) [
      | inl n ↦ absurd (ground (arith, other, n, e))
      | inr (i, f) ↦
          let deep = index_of_behind c s t i h.1 f in
          let here : suc i ≡ k = ground (arith, other, f, e) in omega (arith, deep, here)
    ]

-- A colon behind the first slash does not count.
port_at-none :
    (host path : Bytes)
    → All (λ d. d ≢ b':') host
    → port_at (some (length host)) (index_of b':' (host ++ (b'/' ∷ path))) ≡ none
unfolding port_at
port_at-none host path h = elim (Option-cases (index_of b':' (host ++ (b'/' ∷ path)))) [
  | inl n ↦ rw n refl
  | inr (k, e) ↦
      let late : ltb k (length host) ≡ false =
        ground (arith, index_of_behind b':' host (b'/' ∷ path) k h e) in
      rw (e, late) refl
]

unsigned-append :
    (s t : Bytes)
    → All IsDigit s
    → starts_digit (s ++ t) ≡ true
    → EndsDec t
    → unsigned (s ++ t) ≡ some (digits_value 0 s)
unfolding unsigned
unsigned-append s t h start e = rw (start, digits_value-append s t 0 h e) refl

strtol-append :
    (s t : Bytes)
    → All IsDigit s
    → 0 < length s
    → EndsDec t
    → strtol (s ++ t) ≡ some (saturate_pos (digits_value 0 s))
unfolding strtol signed skip_space
strtol-append [] t h full e = absurd (omega arith)
strtol-append (c ∷ s) t h full e =
    let plain : is_space c ≡ false = unfold is_space in ground arith in
    let no_minus : (c == b'-') ≡ false = ground arith in
    let no_plus : (c == b'+') ≡ false = ground arith in
    let digit : starts_digit (c ∷ s ++ t) ≡ true = unfold starts_digit is_digit in ground arith in
    let read : unsigned (c ∷ s ++ t) ≡ some (digits_value 0 (c ∷ s)) =
      unsigned-append (c ∷ s) t h digit e in
    rw (plain, no_minus, no_plus, read) refl

atoi-some : (s : Bytes) {z : ℤ} → strtol s ≡ some z → atoi s ≡ z
unfolding atoi
atoi-some s h = rw (h, atoi) refl

atoi-decimal_nat : (n : ℕ) (t : Bytes) → n ≤ int_max → EndsDec t → atoi (decimal_nat n ++ t) ≡ pos n
unfolding decimal_nat
atoi-decimal_nat n t h e =
    atoi-some (digits (suc n) n ++ t) (
      strtol-append (digits (suc n) n) t (digits-All (suc n) n) (digits_pos (suc n) n (omega arith))
        e)
    ∙ ap saturate_pos (digits_value-digits (suc n) n (omega arith))
    ∙ (unfold saturate_pos in ground (arith, h))

digits_no_slash : (s : Bytes) → All IsDigit s → All (λ d. d ≢ b'/') s
digits_no_slash [] h = tt
digits_no_slash (c ∷ s) h = ((let here : c ≢ b'/' = ground arith in here), digits_no_slash s h.1)

path_fits :
    (path_len : ℕ) (path : Bytes)
    → length path + 1 < path_len
    → copy_str path_len (b'/' ∷ path) ≡ b'/' ∷ path
path_fits path_len path h = take_all (path_len - 1) (b'/' ∷ path) (omega arith)

parse_rest-plain :
    (host path : Bytes) (host_len path_len : ℕ)
    → All IsHostByte host
    → length host < host_len
    → length path + 1 < path_len
    → parse_rest host_len path_len (host ++ (b'/' ∷ path)) ≡ (host, pos 80, b'/' ∷ path)
unfolding parse_rest host_part port_part path_part
parse_rest-plain host path host_len path_len h hh hp =
    let (no_colon, no_slash) = All-ne host h in
    rw
      (
        index_of-append b'/' host path no_slash,
        port_at-none host path no_colon,
        take-length-cons host (b'/' ∷ path),
        drop-length host (b'/' ∷ path),
        take_all (host_len - 1) host (omega arith),
        path_fits path_len path hp,
      )
      refl

parse_rest-port :
    (host path : Bytes) (port host_len path_len : ℕ)
    → All IsHostByte host
    → port ≤ int_max
    → length host < host_len
    → length path + 1 < path_len
    → parse_rest host_len path_len (host ++ (b':' ∷ (decimal_nat port ++ (b'/' ∷ path))))
      ≡ (host, pos port, b'/' ∷ path)
unfolding parse_rest host_part port_part path_part port_at
parse_rest-port host path port host_len path_len h small hh hp =
    let (no_colon, no_slash) = All-ne host h in
    let front = host ++ (b':' ∷ decimal_nat port) in
    let early : ltb (length host) (length front) ≡ true =
      ground (arith, length-append host (b':' ∷ decimal_nat port)) in
    let p = host ++ (b':' ∷ (decimal_nat port ++ (b'/' ∷ path))) in
    let digits_ok : All (λ d. d ≢ b'/') (decimal_nat port) =
      unfold decimal_nat in digits_no_slash (digits (suc port) port) (digits-All (suc port) port) in
    let colon : b':' ≢ b'/' = omega arith in
    let grouped : front ++ (b'/' ∷ path) ≡ p =
      append_assoc host (b':' ∷ decimal_nat port) (b'/' ∷ path) in
    let slash : index_of b'/' p ≡ some (length front) =
      subst (λ q. index_of b'/' q ≡ some (length front)) grouped
        (index_of-append b'/' front path (
          All-append (λ d. d ≢ b'/') host (b':' ∷ decimal_nat port) no_slash (colon, digits_ok))) in
    let tail : drop (length front) p ≡ b'/' ∷ path =
      subst (λ q. drop (length front) q ≡ b'/' ∷ path) grouped (drop-length front (b'/' ∷ path)) in
    rw
      (
        slash,
        index_of-append b':' host (decimal_nat port ++ (b'/' ∷ path)) no_colon,
        early,
        take-length-cons host (b':' ∷ (decimal_nat port ++ (b'/' ∷ path))),
        take_all (host_len - 1) host (omega arith),
        drop-length-append host (decimal_nat port ++ (b'/' ∷ path)) b':',
        atoi-decimal_nat port (b'/' ∷ path) small (unfold is_digit in refl),
        tail,
        path_fits path_len path hp,
      )
      refl

-- A URL of a host without a port, and then one with a port: the host, the port, 80 by default, and the
-- path are taken back, if the host and the path fit their arrays.
pub parse_url_lem :
    (host path : Bytes) (port host_len path_len : ℕ)
    → All IsHostByte host
    → port ≤ int_max
    → length host < host_len
    → length path + 1 < path_len
    → (parse_url host_len path_len (codes "http://" ++ (host ++ (b'/' ∷ path)))
        ≡ some (host, pos 80, b'/' ∷ path))
      × (parse_url host_len path_len
            (codes "http://" ++ (host ++ (b':' ∷ (decimal_nat port ++ (b'/' ∷ path)))))
          ≡ some (host, pos port, b'/' ∷ path))
unfolding parse_url starts_with
parse_url_lem host path port host_len path_len h small hh hp = (
  ap some (parse_rest-plain host path host_len path_len h hh hp),
  ap some (parse_rest-port host path port host_len path_len h small hh hp),
)
