-- ===== src/Tables/Readers.antt =====
-- `net_read_arp` and `net_collect_connections`, on the texts of the files; `none` is a file that does
-- not open, and the result -1.
use embedded_network_monitor.Tables.Scanf.{number, text, space, unsigned, hex, literal, word}
use embedded_network_monitor.Prelude.{
  ℕ, zero, suc, ◌-◌, ◌%◌, ◌^◌, ◌&&◌, Option, none, some, List, [], ◌∷◌, ◌++◌, ltb, ◌==◌,
  if◌then◌else◌, Bytes, length, take,
}
use embedded_network_monitor.Tables.Scanf.{
  Conversion, Value, sscanf, space, word, hex, unsigned, literal,
}
use embedded_network_monitor.Collector.Proc.{fgets_from}
use embedded_network_monitor.NetState.{Connection, ArpEntry, iface_name_max}

-- the loop over the lines, with `room` entries of the array left
unfoldable pub keep {ℓ} : {A : Type ℓ} → Option A → List A → List A → List A
keep none same less = same
keep (some a) same less = a ∷ less

unfoldable pub read_lines {ℓ} : {A : Type ℓ} → (Bytes → Option A) → ℕ → List Bytes → List A
unfolding keep
read_lines parse room [] = []
read_lines parse zero (line ∷ lines) = []
read_lines parse (suc room) (line ∷ lines) =
    let same = read_lines parse (suc room) lines in
    let less = read_lines parse room lines in keep (parse line) same less

-- behind the header line
unfoldable pub read_table {ℓ} : {A : Type ℓ} → (Bytes → Option A) → ℕ → List Bytes → Option (List A)
unfolding read_lines
read_table parse room [] = none
read_table parse room (header ∷ lines) = some (read_lines parse room lines)

abbrev pub connection_format : List Conversion
connection_format =
    space
    ∷ unsigned
    ∷ literal b':'
    ∷ space
    ∷ hex
    ∷ literal b':'
    ∷ hex
    ∷ space
    ∷ hex
    ∷ literal b':'
    ∷ hex
    ∷ space
    ∷ hex
    ∷ []

unfoldable pub connection_of : ℕ → List Value → Option Connection
connection_of protocol
      (number sl
        ∷ number local_ip
        ∷ number local_port
        ∷ number remote_ip
        ∷ number remote_port
        ∷ number state
        ∷ []) =
    some (record {
      local_addr = local_ip;
      local_port = local_port % 2 ^ 16;
      remote_addr = remote_ip;
      remote_port = remote_port % 2 ^ 16;
      state = state % 2 ^ 8;
      protocol = protocol;
    })
connection_of protocol _ = none

unfoldable pub connection_line : ℕ → Bytes → Option Connection
unfolding connection_of sscanf
connection_line protocol line = connection_of protocol (sscanf connection_format line)

unfoldable pub parse_proc_net : Option Bytes → ℕ → ℕ → Option (List Connection)
unfolding read_table connection_line fgets_from
parse_proc_net none protocol max_count = none
parse_proc_net (some file) protocol max_count =
    read_table (connection_line protocol) max_count (fgets_from 512 511 [] file)

-- no entry for a failure
abbrev pub found {ℓ} : {A : Type ℓ} → Option (List A) → List A
found none = []
found (some entries) = entries

unfoldable pub net_collect_connections : Option Bytes → Option Bytes → ℕ → Option (List Connection)
unfolding parse_proc_net
net_collect_connections tcp_file udp_file max_count =
    let tcp = found (parse_proc_net tcp_file 6 max_count) in
    let remaining = max_count - length tcp in
    let udp = found (parse_proc_net udp_file 17 remaining) in
    if max_count == 0 then none else some (if ltb 0 remaining then tcp ++ udp else tcp)

abbrev pub arp_format : List Conversion
arp_format =
    word 31
    ∷ space
    ∷ literal b'0'
    ∷ literal b'x'
    ∷ hex
    ∷ space
    ∷ literal b'0'
    ∷ literal b'x'
    ∷ hex
    ∷ space
    ∷ word 31
    ∷ space
    ∷ word 31
    ∷ space
    ∷ word 31
    ∷ []

abbrev pub mac_format : List Conversion
mac_format =
    hex
    ∷ literal b':'
    ∷ hex
    ∷ literal b':'
    ∷ hex
    ∷ literal b':'
    ∷ hex
    ∷ literal b':'
    ∷ hex
    ∷ literal b':'
    ∷ hex
    ∷ []

unfoldable pub mac_of : List Value → Option (List ℕ)
mac_of (number a ∷ number b ∷ number c ∷ number d ∷ number e ∷ number f ∷ []) =
    some (a % 256 ∷ b % 256 ∷ c % 256 ∷ d % 256 ∷ e % 256 ∷ f % 256 ∷ [])
mac_of _ = none

unfoldable pub arp_entry : Bytes → Option ℕ → Option (List ℕ) → Option ArpEntry
arp_entry dev (some ip) (some mac) =
    some (record { ip_addr = ip; mac = mac; device = take (iface_name_max - 1) dev })
arp_entry dev _ _ = none

-- `inet_pton` is an argument
unfoldable pub arp_of : (Bytes → Option ℕ) → List Value → Option ArpEntry
unfolding arp_entry mac_of sscanf
arp_of inet_pton
      (text ip_str ∷ number hw_type ∷ number flags ∷ text mac_str ∷ text mask ∷ text dev ∷ []) =
    if hw_type == 1 && flags == 2
    then arp_entry dev (inet_pton ip_str) (mac_of (sscanf mac_format mac_str))
    else none
arp_of inet_pton _ = none

unfoldable pub arp_line : (Bytes → Option ℕ) → Bytes → Option ArpEntry
unfolding arp_of sscanf
arp_line inet_pton line = arp_of inet_pton (sscanf arp_format line)

unfoldable pub net_read_arp : (Bytes → Option ℕ) → Option Bytes → ℕ → Option (List ArpEntry)
unfolding read_table arp_line fgets_from
net_read_arp inet_pton none max_count = none
net_read_arp inet_pton (some file) max_count =
    if max_count == 0
    then none
    else read_table (arp_line inet_pton) max_count (fgets_from 256 255 [] file)
