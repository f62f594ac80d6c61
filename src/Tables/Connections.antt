-- ===== src/Tables/Connections.antt =====
-- The reader of connections on the tables that the kernel writes.
use embedded_network_monitor.Prelude.{
  ℕ, ◌-◌, ◌%◌, ◌^◌, ◌<◌, ◌≡◌, refl, sym, ap, ◌∙◌, inl, inr, true, false, some, List, [], ◌∷◌, ◌++◌,
  map, append-nil, append_assoc, arith, ltb, ◌==◌, Bool-cases, Bytes, length, take, All, All-map,
  take-append,
}
use embedded_network_monitor.Tables.Hex.{hex_text, sscanf-hex_text}
use embedded_network_monitor.Tables.Numerals.{
  blanks, sscanf-space_hex, sscanf-decimal_nat, blanks-append,
}
use embedded_network_monitor.NetState.{Connection}
use embedded_network_monitor.Tables.Readers.{
  connection_line, connection_of, connection_format, parse_proc_net, net_collect_connections,
  read_table,
}
use embedded_network_monitor.Config.Text.{decimal_nat, is_digit}
use embedded_network_monitor.Tables.Scanf.{Conversion, sscanf, space, hex, number, literal}
use embedded_network_monitor.Tables.Files.{file_of, IsLine, fgets_from-file_of, read_lines-map}

-- a row of /proc/net/tcp or /proc/net/udp: `%d: %08X:%04X %08X:%04X %02X`, the number of the row behind
-- spaces, and the further columns
pub record Row : Type 0 where
  pub indent : ℕ
  pub sl : ℕ
  pub local_ip : ℕ
  pub local_port : ℕ
  pub remote_ip : ℕ
  pub remote_port : ℕ
  pub state : ℕ
  pub more : Bytes

abbrev row_before : Row → Bytes → Bytes
row_before r more = blanks r.indent (
    decimal_nat r.sl
    ++ (b':'
        ∷ b' '
        ∷ (hex_text true 8 r.local_ip
            ++ (b':'
                ∷ (hex_text true 4 r.local_port
                    ++ (b' '
                        ∷ (hex_text true 8 r.remote_ip
                            ++ (b':'
                                ∷ (hex_text true 4 r.remote_port
                                    ++ (b' ' ∷ (hex_text true 2 r.state ++ (b' ' ∷ more))))))))))))

abbrev pub row_text : Row → Bytes
row_text r = row_before r r.more

-- The numbers are those of the kernel's types.
pub record IsRow (r : Row) : Type 0 where
  pub sl_fits : r.sl < 2 ^ 32
  pub local_ip_fits : r.local_ip < 2 ^ 32
  pub local_port_fits : r.local_port < 2 ^ 16
  pub remote_ip_fits : r.remote_ip < 2 ^ 32
  pub remote_port_fits : r.remote_port < 2 ^ 16
  pub state_fits : r.state < 2 ^ 8

abbrev pub row_entry : ℕ → Row → Connection
row_entry protocol r = record {
  local_addr = r.local_ip;
  local_port = r.local_port;
  remote_addr = r.remote_ip;
  remote_port = r.remote_port;
  state = r.state;
  protocol = protocol;
}

row_before-append : (r : Row) (s t : Bytes) → row_before r s ++ t ≡ row_before r (s ++ t)
row_before-append r s t = rw blanks-append (ap (blanks r.indent) (simp append_assoc))

-- an address with its port
sscanf-address :
    (format : List Conversion) (ip port : ℕ) (t : Bytes)
    → ip < 2 ^ 32
    → port < 2 ^ 16
    → sscanf
        (space ∷ hex ∷ literal b':' ∷ hex ∷ format)
        (b' ' ∷ (hex_text true 8 ip ++ (b':' ∷ (hex_text true 4 port ++ (b' ' ∷ t)))))
      ≡ number ip ∷ number port ∷ sscanf format (b' ' ∷ t)
sscanf-address format ip port t h₁ h₂ =
    let rest = b':' ∷ (hex_text true 4 port ++ (b' ' ∷ t)) in
    sscanf-space_hex (literal b':' ∷ hex ∷ format) 1 (hex_text true 8 ip ++ rest)
    ∙ sscanf-hex_text (literal b':' ∷ hex ∷ format) true 8 ip rest (omega arith) h₁ (omega arith)
        refl
    ∙ ap (λ v. number ip ∷ v)
        (unfold sscanf in
          sscanf-hex_text format true 4 port (b' ' ∷ t) (omega arith) (omega arith) (omega arith)
            refl)

sscanf-row_before :
    (r : Row) (more : Bytes)
    → IsRow r
    → sscanf connection_format (row_before r more)
      ≡ number r.sl
        ∷ number r.local_ip
        ∷ number r.local_port
        ∷ number r.remote_ip
        ∷ number r.remote_port
        ∷ number r.state
        ∷ []
sscanf-row_before r more h =
    let state = hex_text true 2 r.state ++ (b' ' ∷ more) in
    let remote =
      hex_text true 8 r.remote_ip ++ (b':' ∷ (hex_text true 4 r.remote_port ++ (b' ' ∷ state))) in
    let f : List Conversion = space ∷ hex ∷ [] in
    let g : List Conversion = space ∷ hex ∷ literal b':' ∷ hex ∷ f in
    let h₃ : sscanf f (b' ' ∷ state) ≡ number r.state ∷ [] =
      sscanf-space_hex [] 1 state
      ∙ sscanf-hex_text [] true 2 r.state (b' ' ∷ more) (omega (arith, h.state_fits))
          (omega (arith, h.state_fits)) (omega arith) refl
      ∙ (unfold sscanf in refl) in
    let h₂ : sscanf g (b' ' ∷ remote)
        ≡ number r.remote_ip ∷ number r.remote_port ∷ number r.state ∷ [] =
      sscanf-address f r.remote_ip r.remote_port state h.remote_ip_fits h.remote_port_fits
      ∙ ap (λ v. number r.remote_ip ∷ number r.remote_port ∷ v) h₃ in
    let local =
      b' '
      ∷ (hex_text true 8 r.local_ip
          ++ (b':' ∷ (hex_text true 4 r.local_port ++ (b' ' ∷ remote)))) in
    let h₁ : sscanf (space ∷ hex ∷ literal b':' ∷ hex ∷ g) local
        ≡ number r.local_ip
          ∷ number r.local_port
          ∷ number r.remote_ip
          ∷ number r.remote_port
          ∷ number r.state
          ∷ [] =
      sscanf-address g r.local_ip r.local_port remote h.local_ip_fits h.local_port_fits
      ∙ ap (λ v. number r.local_ip ∷ number r.local_port ∷ v) h₂ in
    let colon : sscanf (literal b':' ∷ space ∷ hex ∷ literal b':' ∷ hex ∷ g) (b':' ∷ local)
        ≡ sscanf (space ∷ hex ∷ literal b':' ∷ hex ∷ g) local =
      unfold sscanf in refl in
    sscanf-decimal_nat (literal b':' ∷ space ∷ hex ∷ literal b':' ∷ hex ∷ g) r.indent r.sl
      (b':' ∷ local) (unfold is_digit in refl) h.sl_fits
    ∙ ap (λ v. number r.sl ∷ v) (colon ∙ h₁)

connection_line-row_text :
    (protocol : ℕ) (r : Row)
    → IsRow r
    → connection_line protocol (row_text r ++ 10 ∷ []) ≡ some (row_entry protocol r)
unfolding connection_line connection_of
connection_line-row_text protocol r h =
    let same =
      ap (sscanf connection_format) (row_before-append r r.more (10 ∷ []))
      ∙ sscanf-row_before r (r.more ++ 10 ∷ []) h in
    let lport : r.local_port % 2 ^ 16 ≡ r.local_port = omega (arith, h.local_port_fits) in
    let rport : r.remote_port % 2 ^ 16 ≡ r.remote_port = omega (arith, h.remote_port_fits) in
    let state : r.state % 2 ^ 8 ≡ r.state = omega (arith, h.state_fits) in
    ap (connection_of protocol) same ∙ (rw (lport, rport, state) refl)

abbrev pub FitsLine : Row → Type 0
FitsLine r = IsLine 511 (row_text r)

rows-connection :
    (protocol : ℕ) (rows : List Row)
    → All IsRow rows
    → All (λ r. connection_line protocol (row_text r ++ 10 ∷ []) ≡ some (row_entry protocol r)) rows
rows-connection protocol [] h = tt
rows-connection protocol (r ∷ rows) h =
    (connection_line-row_text protocol r h.0, rows-connection protocol rows h.1)

parse_proc_net-rows :
    (protocol room : ℕ) (header : Bytes) (rows : List Row)
    → IsLine 511 header
    → All IsRow rows
    → All FitsLine rows
    → parse_proc_net (some (file_of (header ∷ map row_text rows))) protocol room
      ≡ some (take room (map (row_entry protocol) rows))
unfolding parse_proc_net
parse_proc_net-rows protocol room header rows h rs fits =
    ap (read_table (connection_line protocol) room) (
      fgets_from-file_of 512 (header ∷ map row_text rows)
        (h, All-map (IsLine 511) row_text rows fits))
    ∙ (unfold read_table in
        ap some (
          read_lines-map (connection_line protocol) row_text (row_entry protocol) room rows
            (rows-connection protocol rows rs)))

-- Of a file of TCP connections and a file of UDP connections as the kernel writes them, each with its
-- header, the reader gives the connections that fit the array, in order, TCP ones first, each with
-- the numbers of its row and its protocol.
pub net_collect_connections_lem :
    (tcp_header udp_header : Bytes) (tcp udp : List Row) (max_count : ℕ)
    → 0 < max_count
    → IsLine 511 tcp_header
    → IsLine 511 udp_header
    → All IsRow tcp
    → All IsRow udp
    → All FitsLine tcp
    → All FitsLine udp
    → net_collect_connections
        (some (file_of (tcp_header ∷ map row_text tcp)))
        (some (file_of (udp_header ∷ map row_text udp)))
        max_count
      ≡ some (take max_count (map (row_entry 6) tcp ++ map (row_entry 17) udp))
unfolding net_collect_connections
net_collect_connections_lem tcp_header udp_header tcp udp max_count pos ht hu rt ru ft fu =
    let kept = take max_count (map (row_entry 6) tcp) in
    let more = map (row_entry 17) udp in
    let room : (max_count == 0) ≡ false = ground arith in
    rw
      (
        parse_proc_net-rows 6 max_count tcp_header tcp ht rt ft,
        parse_proc_net-rows 17 (max_count - length kept) udp_header udp hu ru fu,
        room,
        take-append max_count (map (row_entry 6) tcp) more,
      )
      (elim (Bool-cases (ltb 0 (max_count - length kept))) [
        | inl e ↦ rw e refl
        | inr e ↦
            let none_left : max_count - length kept ≡ 0 = ground arith in
            rw (e, none_left) (ap some (sym (append-nil kept)))
      ])
