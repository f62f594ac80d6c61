-- ===== src/Format/Addresses.antt =====
-- What format_ip and format_mac print reads back.
use embedded_network_monitor.Prelude.{
  ℕ, suc, ◌+◌, ◌*◌, ◌/◌, ◌%◌, ◌^◌, ◌≤◌, ◌<◌, ◌≡◌, refl, ap, ◌∙◌, true, some, List, [], ◌∷◌, ◌++◌,
  append-nil, append_assoc, arith, Bytes, length, take, length-append, take_all,
}
use embedded_network_monitor.Tables.Scanf.{unsigned, Conversion, sscanf, number, literal}
use embedded_network_monitor.Config.Text.{decimal_nat, is_digit}
use embedded_network_monitor.Format.{format_ip, hex2, format_mac}
use embedded_network_monitor.Tables.Hex.{hex_text}
use embedded_network_monitor.Tables.Numerals.{sscanf-unsigned}
use embedded_network_monitor.Tables.Mac.{IsMac, mac_text, length-mac_text, mac_of-mac_text}
use embedded_network_monitor.Config.Numbers.{length-digits}
use embedded_network_monitor.Tables.Readers.{mac_of, mac_format}

-- `%u.%u.%u.%u`
abbrev pub ip_format : List Conversion
ip_format =
    unsigned ∷ literal b'.' ∷ unsigned ∷ literal b'.' ∷ unsigned ∷ literal b'.' ∷ unsigned ∷ []

abbrev dotted : ℕ → ℕ → ℕ → ℕ → Bytes
dotted a b c d =
    decimal_nat a
    ++ (b'.' ∷ (decimal_nat b ++ (b'.' ∷ (decimal_nat c ++ (b'.' ∷ (decimal_nat d ++ []))))))

length-octet : (n : ℕ) → n < 256 → length (decimal_nat n) ≤ 3
unfolding decimal_nat
length-octet n h = length-digits 3 (suc n) n (omega arith) (omega arith)

length-dotted : (a b c d : ℕ) → a < 256 → b < 256 → c < 256 → d < 256 → length (dotted a b c d) ≤ 15
length-dotted a b c d ha hb hc hd = omega (
  arith,
  length-octet a ha,
  length-octet b hb,
  length-octet c hc,
  length-octet d hd,
  length-append (decimal_nat a)
      (b'.' ∷ (decimal_nat b ++ (b'.' ∷ (decimal_nat c ++ (b'.' ∷ (decimal_nat d ++ [])))))),
  length-append (decimal_nat b) (b'.' ∷ (decimal_nat c ++ (b'.' ∷ (decimal_nat d ++ [])))),
  length-append (decimal_nat c) (b'.' ∷ (decimal_nat d ++ [])),
  length-append (decimal_nat d) [],
)

sscanf-dot :
    (format : List Conversion) (n : ℕ) (t : Bytes)
    → n < 256
    → sscanf (unsigned ∷ literal b'.' ∷ format) (decimal_nat n ++ (b'.' ∷ t))
      ≡ number n ∷ sscanf format t
sscanf-dot format n t h =
    sscanf-unsigned (literal b'.' ∷ format) n (b'.' ∷ t) (unfold is_digit in refl) (omega arith)
    ∙ (unfold sscanf in refl)

sscanf-dotted :
    (a b c d : ℕ)
    → a < 256
    → b < 256
    → c < 256
    → d < 256
    → sscanf ip_format (dotted a b c d) ≡ number a ∷ number b ∷ number c ∷ number d ∷ []
sscanf-dotted a b c d ha hb hc hd =
    let last : sscanf (unsigned ∷ []) (decimal_nat d ++ []) ≡ number d ∷ [] =
      sscanf-unsigned [] d [] tt (omega arith) ∙ (unfold sscanf in refl) in
    rw (sscanf-dot _ a _ ha, sscanf-dot _ b _ hb, sscanf-dot _ c _ hc, last) refl

format_ip-dotted :
    (ip : ℕ)
    → format_ip ip 32 ≡ dotted (ip % 256) (ip / 256 % 256) (ip / 65536 % 256) (ip / 16777216 % 256)
unfolding format_ip
format_ip-dotted ip =
    let a = ip % 256 in
    let b = ip / 256 % 256 in
    let c = ip / 65536 % 256 in
    let d = ip / 16777216 % 256 in
    let nested : decimal_nat a
          ++ b'.' ∷ decimal_nat b
          ++ b'.' ∷ decimal_nat c
          ++ b'.' ∷ decimal_nat d
        ≡ dotted a b c d =
      simp (append_assoc, append-nil) in
    ap (take 31) nested
    ∙ take_all 31 (dotted a b c d) (
        omega
          (arith, length-dotted a b c d (omega arith) (omega arith) (omega arith) (omega arith)))

-- The text of an address of 32 bits is not cut by a buffer of 32 bytes, and the four numbers in it,
-- read by `%u.%u.%u.%u`, make up the address, its lowest byte first.
pub format_ip_lem :
    (ip : ℕ)
    → ip < 2 ^ 32
    → (length (format_ip ip 32) ≤ 15)
      × ((a : ℕ) × (b : ℕ) × (c : ℕ) × (d : ℕ) × (sscanf ip_format (format_ip ip 32)
            ≡ number a ∷ number b ∷ number c ∷ number d ∷ [])
          × (ip ≡ a + 256 * b + 65536 * c + 16777216 * d))
format_ip_lem ip h =
    let a = ip % 256 in
    let b = ip / 256 % 256 in
    let c = ip / 65536 % 256 in
    let d = ip / 16777216 % 256 in
    rw (format_ip-dotted ip) (
      length-dotted a b c d (omega arith) (omega arith) (omega arith) (omega arith),
      (
        a,
        b,
        c,
        d,
        sscanf-dotted a b c d (omega arith) (omega arith) (omega arith) (omega arith),
        omega arith,
      ),
    )

hex2-hex_text : (n : ℕ) → n < 256 → hex2 n ≡ hex_text true 2 n
unfolding hex_text
hex2-hex_text n h = let high : n / 16 % 16 ≡ n / 16 = omega arith in rw high refl

-- The text of a hardware address is not cut by a buffer of 32 bytes, and the reader of the ARP table
-- takes the address back from it.
pub mac_of-format_mac :
    (a b c d e f : ℕ)
    → IsMac (a, b, c, d, e, f)
    → let mac = a ∷ b ∷ c ∷ d ∷ e ∷ f ∷ [] in
      (length (format_mac mac 32) ≡ 17)
      × (mac_of (sscanf mac_format (format_mac mac 32)) ≡ some mac)
mac_of-format_mac a b c d e f h =
    let m : ℕ × ℕ × ℕ × ℕ × ℕ × ℕ = (a, b, c, d, e, f) in
    let same : format_mac (a ∷ b ∷ c ∷ d ∷ e ∷ f ∷ []) 32 ≡ mac_text true m =
      rw
        (
          ← hex2-hex_text a h.0,
          ← hex2-hex_text b h.1,
          ← hex2-hex_text c h.2,
          ← hex2-hex_text d h.3,
          ← hex2-hex_text e h.4,
          ← hex2-hex_text f h.5,
        )
        (unfold format_mac in refl) in
    rw same (length-mac_text true m, mac_of-mac_text true m h)
