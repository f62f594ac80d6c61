-- ===== src/Tables/Mac.antt =====
-- Hardware addresses as text, and the reader of them in net_arp.c.
use embedded_network_monitor.Prelude.{
  ℕ, ◌+◌, ◌%◌, ◌<◌, ◌≡◌, refl, ◌∙◌, some, List, [], ◌∷◌, ◌++◌, arith, Bytes, length, All,
  length-append, All-append, Bool,
}
use embedded_network_monitor.Tables.Hex.{hex_text, sscanf-hex_text, IsWordByte, length-hex_text}
use embedded_network_monitor.Tables.Numerals.{hex_text-word}
use embedded_network_monitor.Tables.Scanf.{Conversion, sscanf, hex, literal, number}
use embedded_network_monitor.Tables.Readers.{mac_of, mac_format}
use embedded_network_monitor.Config.Text.{is_space}

-- `%02X:%02X:%02X:%02X:%02X:%02X` or the same with `%02x`
abbrev pub mac_text : Bool → ℕ × ℕ × ℕ × ℕ × ℕ × ℕ → Bytes
mac_text upper m =
    hex_text upper 2 m.0
    ++ (b':'
        ∷ (hex_text upper 2 m.1
            ++ (b':'
                ∷ (hex_text upper 2 m.2
                    ++ (b':'
                        ∷ (hex_text upper 2 m.3
                            ++ (b':'
                                ∷ (hex_text upper 2 m.4
                                    ++ (b':' ∷ (hex_text upper 2 m.5 ++ []))))))))))

abbrev pub IsMac : ℕ × ℕ × ℕ × ℕ × ℕ × ℕ → Type 0
IsMac m = (m.0 < 256) × (m.1 < 256) × (m.2 < 256) × (m.3 < 256) × (m.4 < 256) × (m.5 < 256)

hex_colon :
    (upper : Bool) (format : List Conversion) (n : ℕ) (t : Bytes)
    → n < 256
    → sscanf (hex ∷ literal b':' ∷ format) (hex_text upper 2 n ++ (b':' ∷ t))
      ≡ number n ∷ sscanf format t
hex_colon upper format n t h =
    sscanf-hex_text (literal b':' ∷ format) upper 2 n (b':' ∷ t) (omega arith) (omega arith)
      (omega arith) refl
    ∙ (unfold sscanf in refl)

hex_last :
    (upper : Bool) (n : ℕ) → n < 256 → sscanf (hex ∷ []) (hex_text upper 2 n ++ []) ≡ number n ∷ []
hex_last upper n h =
    sscanf-hex_text [] upper 2 n [] (omega arith) (omega arith) (omega arith) tt
    ∙ (unfold sscanf in refl)

mod_small : (n : ℕ) → n < 256 → n % 256 ≡ n
mod_small n h = omega arith

-- The hardware address of a row reads back.
pub mac_of-mac_text :
    (upper : Bool) (m : ℕ × ℕ × ℕ × ℕ × ℕ × ℕ)
    → IsMac m
    → mac_of (sscanf mac_format (mac_text upper m)) ≡ some (m.0 ∷ m.1 ∷ m.2 ∷ m.3 ∷ m.4 ∷ m.5 ∷ [])
unfolding mac_of
mac_of-mac_text upper m h =
    rw
      (
        hex_colon upper _ m.0 _ h.0,
        hex_colon upper _ m.1 _ h.1,
        hex_colon upper _ m.2 _ h.2,
        hex_colon upper _ m.3 _ h.3,
        hex_colon upper _ m.4 _ h.4,
        hex_last upper m.5 h.5,
      )
      (rw
        (
          mod_small m.0 h.0,
          mod_small m.1 h.1,
          mod_small m.2 h.2,
          mod_small m.3 h.3,
          mod_small m.4 h.4,
          mod_small m.5 h.5,
        )
        refl)

colon_word : (s : Bytes) → All IsWordByte s → All IsWordByte (b':' ∷ s)
colon_word s h = (unfold is_space in refl, h)

pub mac_text-word : (upper : Bool) (m : ℕ × ℕ × ℕ × ℕ × ℕ × ℕ) → All IsWordByte (mac_text upper m)
mac_text-word upper m =
    let pair : (n : ℕ) (s : Bytes) → All IsWordByte s → All IsWordByte (hex_text upper 2 n ++ s) =
      λ n s h. All-append IsWordByte (hex_text upper 2 n) s (hex_text-word upper 2 n) h in
    pair m.0 _ (
      colon_word _ (
        pair m.1 _ (
          colon_word _ (
            pair m.2 _ (
              colon_word _
                (pair m.3 _ (colon_word _ (pair m.4 _ (colon_word _ (pair m.5 [] tt))))))))))

length-pair : (upper : Bool) (n : ℕ) (s : Bytes) → length (hex_text upper 2 n ++ s) ≡ 2 + length s
length-pair upper n s =
    omega (arith, length-append (hex_text upper 2 n) s, length-hex_text upper 2 n)

pub length-mac_text : (upper : Bool) (m : ℕ × ℕ × ℕ × ℕ × ℕ × ℕ) → length (mac_text upper m) ≡ 17
length-mac_text upper m =
    rw
      (
        length-pair upper m.0,
        length-pair upper m.1,
        length-pair upper m.2,
        length-pair upper m.3,
        length-pair upper m.4,
        length-pair upper m.5 [],
      )
      refl
