-- ===== src/Tables/Arp.antt =====
-- The reader of the ARP table on the tables that the kernel writes.
use embedded_network_monitor.Prelude.{
  ℕ, suc, ◌≤◌, ◌<◌, ◌≡◌, refl, ap, ◌∙◌, true, false, ◌&&◌, Option, none, some, List, [], ◌∷◌, ◌++◌,
  map, append_assoc, arith, ltb, leb, ◌==◌, if◌then◌else◌, Bytes, length, take, All, take_all,
  All-map, ◌^◌, Bool-cases, inl, inr,
}
use embedded_network_monitor.Tables.Hex.{IsWordByte, EndsWord, sscanf-hex_numeral, hex_text}
use embedded_network_monitor.Tables.Numerals.{
  blanks, skip_space-blanks, sscanf-word, sscanf-space_word, blanks-append, all_word,
  All-IsWordByte-test,
}
use embedded_network_monitor.Tables.Scanf.{
  Conversion, sscanf, hex, literal, number, word, space, text,
}
use embedded_network_monitor.Tables.Readers.{
  arp_entry, arp_format, arp_line, net_read_arp, arp_of, read_table,
}
use embedded_network_monitor.NetState.{iface_name_max, ArpEntry}
use embedded_network_monitor.Config.Text.{is_space, skip_space}
use embedded_network_monitor.Tables.Files.{
  IsLine, file_of, fgets_from-file_of, somes, read_lines-somes,
}
use embedded_network_monitor.Tables.Mac.{mac_text, IsMac, mac_of-mac_text}

-- A row of /proc/net/arp: `<ip> 0x<type> 0x<flags> <address> <mask> <device>`, each column behind spaces. The
-- type and the flags have any digits that hold them, as `%x` prints them.
pub record ArpRow : Type 0 where
  pub ip_str : Bytes
  pub ip_addr : ℕ
  pub hw_type : ℕ
  pub type_digits : ℕ
  pub flags : ℕ
  pub flag_digits : ℕ
  pub hw_addr : Bytes
  pub mac : ℕ × ℕ × ℕ × ℕ × ℕ × ℕ
  pub mask : Bytes
  pub device : Bytes
  pub gap₁ : ℕ
  pub gap₂ : ℕ
  pub gap₃ : ℕ
  pub gap₄ : ℕ
  pub gap₅ : ℕ

abbrev arp_before : ArpRow → Bytes → Bytes
arp_before r tail =
    r.ip_str
    ++ blanks (suc r.gap₁) (
        b'0'
        ∷ b'x'
        ∷ (hex_text false r.type_digits r.hw_type
            ++ blanks (suc r.gap₂) (
                b'0'
                ∷ b'x'
                ∷ (hex_text false r.flag_digits r.flags
                    ++ blanks (suc r.gap₃) (
                        r.hw_addr
                        ++ blanks (suc r.gap₄)
                            (r.mask ++ blanks (suc r.gap₅) (r.device ++ tail)))))))

abbrev pub arp_text : ArpRow → Bytes
arp_text r = arp_before r []

abbrev pub IsColumn : Bytes → Type 0
IsColumn s = All IsWordByte s × (0 < length s) × (length s ≤ 31)

-- A test for it.
pub IsColumn-test :
    (s : Bytes) → (all_word s && (ltb 0 (length s) && leb (length s) 31)) ≡ true → IsColumn s
IsColumn-test s h =
    let word : all_word s ≡ true = ground arith in
    (All-IsWordByte-test s word, ground arith, ground arith)

-- `k` digits, one at least, hold the number, and 32 bits do
abbrev pub IsCode : ℕ → ℕ → Type 0
IsCode k n = (1 ≤ k) × (n < 16 ^ k) × (n < 2 ^ 32)

-- The hardware address of a complete Ethernet row is six bytes; that of another row is any text.
pub record IsArpRow (inet_pton : Bytes → Option ℕ) (r : ArpRow) : Type 0 where
  pub type_fits : IsCode r.type_digits r.hw_type
  pub flags_fit : IsCode r.flag_digits r.flags
  pub ip_column : IsColumn r.ip_str
  pub ip_parsed : inet_pton r.ip_str ≡ some r.ip_addr
  pub addr_column : IsColumn r.hw_addr
  pub addr_is_mac : r.hw_type ≡ 1 → r.flags ≡ 2 → r.hw_addr ≡ mac_text false r.mac
  pub mac_fits : IsMac r.mac
  pub mask_column : IsColumn r.mask
  pub device_column : IsColumn r.device
  pub device_fits : length r.device < iface_name_max

-- a row of Ethernet with the flags 2
abbrev pub arp_row_entry : ArpRow → Option ArpEntry
arp_row_entry r =
    if r.hw_type == 1 && r.flags == 2
    then some (record {
      ip_addr = r.ip_addr;
      mac = r.mac.0 ∷ r.mac.1 ∷ r.mac.2 ∷ r.mac.3 ∷ r.mac.4 ∷ r.mac.5 ∷ [];
      device = r.device;
    })
    else none

-- a column and the blanks behind it
sscanf-column :
    (format : List Conversion) (s : Bytes) (gap : ℕ) (t : Bytes)
    → IsColumn s
    → sscanf (word 31 ∷ format) (s ++ blanks (suc gap) t)
      ≡ text s ∷ sscanf format (blanks (suc gap) t)
sscanf-column format s gap t h =
    sscanf-word format 31 s (blanks (suc gap) t) h.0 h.1 (unfold is_space in refl) h.2

-- `0x` and a numeral between blanks
sscanf-code :
    (format : List Conversion) (gap k n next : ℕ) (t : Bytes)
    → IsCode k n
    → sscanf
        (space ∷ literal b'0' ∷ literal b'x' ∷ hex ∷ format)
        (blanks (suc gap) (b'0' ∷ b'x' ∷ (hex_text false k n ++ blanks (suc next) t)))
      ≡ number n ∷ sscanf format (blanks (suc next) t)
unfolding sscanf
sscanf-code format gap k n next t h =
    ap (λ r. sscanf (literal b'0' ∷ literal b'x' ∷ hex ∷ format) r)
      (skip_space-blanks (suc gap) (b'0' ∷ b'x' ∷ (hex_text false k n ++ blanks (suc next) t)))
    ∙ (unfold sscanf skip_space is_space in
        sscanf-hex_numeral format false k n 32 (blanks next t) h.1 h.2 h.0 refl refl)

sscanf-arp_before :
    (r : ArpRow) (tail : Bytes) (inet_pton : Bytes → Option ℕ)
    → IsArpRow inet_pton r
    → EndsWord tail
    → sscanf arp_format (arp_before r tail)
      ≡ text r.ip_str
        ∷ number r.hw_type
        ∷ number r.flags
        ∷ text r.hw_addr
        ∷ text r.mask
        ∷ text r.device
        ∷ []
sscanf-arp_before r tail inet_pton h ends =
    let dev : sscanf (space ∷ word 31 ∷ []) (blanks (suc r.gap₅) (r.device ++ tail))
        ≡ text r.device ∷ [] =
      sscanf-space_word [] 31 (suc r.gap₅) (r.device ++ tail)
      ∙ sscanf-word [] 31 r.device tail h.device_column.0 h.device_column.1 ends h.device_column.2
      ∙ (unfold sscanf in refl) in
    rw
      (
        sscanf-column _ r.ip_str r.gap₁ _ h.ip_column,
        sscanf-code _ r.gap₁ r.type_digits r.hw_type r.gap₂ _ h.type_fits,
        sscanf-code _ r.gap₂ r.flag_digits r.flags r.gap₃ _ h.flags_fit,
        sscanf-space_word _ 31 (suc r.gap₃) _,
        sscanf-column _ r.hw_addr r.gap₄ _ h.addr_column,
        sscanf-space_word _ 31 (suc r.gap₄) _,
        sscanf-column _ r.mask r.gap₅ _ h.mask_column,
        dev,
      )
      refl

arp_text-newline : (r : ArpRow) → arp_text r ++ 10 ∷ [] ≡ arp_before r (10 ∷ [])
arp_text-newline r = simp (append_assoc, blanks-append)

both_eq : (a b : ℕ) → (a == 1 && b == 2) ≡ true → (a ≡ 1) × (b ≡ 2)
both_eq a b e = (ground (arith, e), ground (arith, e))

arp_line-arp_text :
    (inet_pton : Bytes → Option ℕ) (r : ArpRow)
    → IsArpRow inet_pton r
    → arp_line inet_pton (arp_text r ++ 10 ∷ []) ≡ arp_row_entry r
unfolding arp_line arp_of arp_entry
arp_line-arp_text inet_pton r h =
    let ends : EndsWord (10 ∷ []) = unfold is_space in refl in
    let read = sscanf-arp_before r (10 ∷ []) inet_pton h ends in
    elim (Bool-cases (r.hw_type == 1 && r.flags == 2)) [
      | inl e ↦
          let (ethernet, complete) = both_eq r.hw_type r.flags e in
          rw
            (
              arp_text-newline r,
              read,
              e,
              h.ip_parsed,
              h.addr_is_mac ethernet complete,
              mac_of-mac_text false r.mac h.mac_fits,
              take_all 15 r.device (omega (arith, h.device_fits)),
            )
            refl
      | inr e ↦ rw (arp_text-newline r, read, e) refl
    ]

rows-entry :
    (inet_pton : Bytes → Option ℕ) (rows : List ArpRow)
    → All (IsArpRow inet_pton) rows
    → All (λ r. arp_line inet_pton (arp_text r ++ 10 ∷ []) ≡ arp_row_entry r) rows
rows-entry inet_pton [] h = tt
rows-entry inet_pton (r ∷ rows) h =
    (arp_line-arp_text inet_pton r h.0, rows-entry inet_pton rows h.1)

-- Of an ARP table as the kernel writes it, the reader gives the rows of Ethernet whose flags are exactly 2,
-- as many as fit the array, in order, each with its address, its hardware address and its device. A row
-- has any type and any flags of 32 bits, an address that `inet_pton` takes, columns of text of at most 31
-- bytes, of which the hardware address has six bytes where the type is 1 and the flags are 2, and a device
-- of at most 15; a line has at most 254 bytes.
pub net_read_arp_lem :
    (inet_pton : Bytes → Option ℕ) (header : Bytes) (rows : List ArpRow) (max_count : ℕ)
    → 0 < max_count
    → IsLine 255 header
    → All (IsArpRow inet_pton) rows
    → All (λ r. IsLine 255 (arp_text r)) rows
    → net_read_arp inet_pton (some (file_of (header ∷ map arp_text rows))) max_count
      ≡ some (take max_count (somes (map arp_row_entry rows)))
unfolding net_read_arp read_table
net_read_arp_lem inet_pton header rows max_count pos h rs fits =
    let room : (max_count == 0) ≡ false = ground arith in
    rw
      (
        room,
        fgets_from-file_of 256 (header ∷ map arp_text rows)
            (h, All-map (IsLine 255) arp_text rows fits),
      )
      (ap some (
        read_lines-somes (arp_line inet_pton) arp_text arp_row_entry max_count rows
          (rows-entry inet_pton rows rs)))
