-- ===== src/Tables/Examples.antt =====
-- Tables as the kernel writes them.
use embedded_network_monitor.Prelude.{
  ℕ, ◌≡◌, refl, Option, some, List, [], ◌∷◌, ◌++◌, map, arith, if◌then◌else◌, Bytes, codes, str_eq,
  take, All,
}
use embedded_network_monitor.Tables.Connections.{
  Row, row_text, row_entry, net_collect_connections_lem, IsRow, FitsLine,
}
use embedded_network_monitor.Tables.Hex.{hex_text}
use embedded_network_monitor.Config.Text.{
  decimal_nat, digits, is_space, skip_space, is_digit, starts_digit, digits_value,
}
use embedded_network_monitor.Tables.Readers.{
  net_collect_connections, connection_line, net_read_arp, connection_of,
}
use embedded_network_monitor.Tables.Files.{file_of, IsLine-test, IsLine, somes}
use embedded_network_monitor.Tables.Arp.{
  ArpRow, IsArpRow, arp_text, arp_row_entry, net_read_arp_lem, IsColumn-test,
}
use embedded_network_monitor.Collector.Devices.{
  DevRow, IsDevRow, dev_text, row_stats, parse_proc_net_dev_lem,
}
use embedded_network_monitor.Collector.Proc.{
  parse_proc_net_dev, scan_signed, scan_digits, skip_digits,
}
use embedded_network_monitor.Tables.Scanf.{
  sscanf, store, scan_hex, scan_hex_digits, strip_0x, hex_value, skip_hex, starts_hex,
}

abbrev tcp_header : Bytes
tcp_header = codes "  sl  local_address rem_address   st tx_queue rx_queue"

-- a listening server and a connection to it
abbrev listening : Row
listening = record {
  indent = 3;
  sl = 0;
  local_ip = 0;
  local_port = 8080;
  remote_ip = 0;
  remote_port = 0;
  state = 10;
  more = codes "00000000:00000000 00:00000000 00000000     0";
}

abbrev connected : Row
connected = record {
  indent = 3;
  sl = 1;
  local_ip = 0x0100A8C0;
  local_port = 8080;
  remote_ip = 0x0200A8C0;
  remote_port = 51234;
  state = 1;
  more = codes "00000000:00000000";
}

abbrev tcp : List Row
tcp = listening ∷ connected ∷ []

abbrev dhcp : Row
dhcp = record {
  indent = 2;
  sl = 12;
  local_ip = 0;
  local_port = 68;
  remote_ip = 0;
  remote_port = 0;
  state = 7;
  more = [];
}

abbrev udp : List Row
udp = dhcp ∷ []

-- The first line of the kernel's table, in its own words.
row_text_run :
    connection_line 6 (codes "   0: 00000000:1F90 00000000:0000 0A 00000000:00000000\n")
    ≡ some (record {
      local_addr = 0;
      local_port = 8080;
      remote_addr = 0;
      remote_port = 0;
      state = 10;
      protocol = 6;
    })
unfolding connection_line connection_of sscanf store scan_signed scan_hex skip_space is_space
    is_digit starts_digit scan_digits scan_hex_digits strip_0x hex_value skip_hex starts_hex
    digits_value skip_digits
row_text_run = refl

tcp-IsRow : All IsRow tcp
tcp-IsRow = (
  record {
    sl_fits = omega arith;
    local_ip_fits = omega arith;
    local_port_fits = omega arith;
    remote_ip_fits = omega arith;
    remote_port_fits = omega arith;
    state_fits = omega arith;
  },
  (
    record {
      sl_fits = omega arith;
      local_ip_fits = omega arith;
      local_port_fits = omega arith;
      remote_ip_fits = omega arith;
      remote_port_fits = omega arith;
      state_fits = omega arith;
    },
    tt,
  ),
)

udp-IsRow : All IsRow udp
udp-IsRow = (
  record {
    sl_fits = omega arith;
    local_ip_fits = omega arith;
    local_port_fits = omega arith;
    remote_ip_fits = omega arith;
    remote_port_fits = omega arith;
    state_fits = omega arith;
  },
  tt,
)

tcp-FitsLine : All FitsLine tcp
unfolding hex_text decimal_nat digits
tcp-FitsLine =
    (IsLine-test 511 (row_text listening) refl, (IsLine-test 511 (row_text connected) refl, tt))

udp-FitsLine : All FitsLine udp
unfolding hex_text decimal_nat digits
udp-FitsLine = (IsLine-test 511 (row_text dhcp) refl, tt)

net_collect_connections_lem_example :
    net_collect_connections
      (some (file_of (tcp_header ∷ map row_text tcp)))
      (some (file_of (tcp_header ∷ map row_text udp)))
      2
    ≡ some (take 2 (map (row_entry 6) tcp ++ map (row_entry 17) udp))
net_collect_connections_lem_example =
    net_collect_connections_lem tcp_header tcp_header tcp udp 2 (omega arith)
      (IsLine-test 511 tcp_header refl) (IsLine-test 511 tcp_header refl) tcp-IsRow udp-IsRow
      tcp-FitsLine udp-FitsLine

abbrev arp_header : Bytes
arp_header = codes "IP address       HW type     Flags       HW address"

-- a learned address, and one that was set by hand
abbrev learned : ArpRow
learned = record {
  ip_str = codes "192.168.1.1";
  ip_addr = 16885952;
  hw_type = 1;
  type_digits = 1;
  flags = 2;
  flag_digits = 1;
  hw_addr = codes "00:11:22:33:44:ff";
  mac = (0, 17, 34, 51, 68, 255);
  mask = codes "*";
  device = codes "eth0";
  gap₁ = 5;
  gap₂ = 9;
  gap₃ = 9;
  gap₄ = 4;
  gap₅ = 8;
}

abbrev fixed : ArpRow
fixed = record {
  ip_str = codes "192.168.1.2";
  ip_addr = 33663168;
  hw_type = 1;
  type_digits = 1;
  flags = 6;
  flag_digits = 1;
  hw_addr = codes "00:11:22:33:44:ee";
  mac = (0, 17, 34, 51, 68, 238);
  mask = codes "*";
  device = codes "eth0";
  gap₁ = 5;
  gap₂ = 9;
  gap₃ = 9;
  gap₄ = 4;
  gap₅ = 8;
}

-- an entry of a tunnel, with a type of three digits, that answers for another host
abbrev tunnel : ArpRow
tunnel = record fixed {
  hw_type = 0x304;
  type_digits = 3;
  flags = 0xc;
  hw_addr = codes "0a:00:00:02";
  device = codes "gre1";
}

abbrev arp_rows : List ArpRow
arp_rows = learned ∷ fixed ∷ tunnel ∷ []

abbrev pton : Bytes → Option ℕ
pton s = some (if str_eq s (codes "192.168.1.1") then 16885952 else 33663168)

learned-IsArpRow : IsArpRow pton learned
unfolding is_space str_eq hex_text
learned-IsArpRow = record {
  type_fits = (omega arith, omega arith, omega arith);
  flags_fit = (omega arith, omega arith, omega arith);
  ip_column = IsColumn-test (codes "192.168.1.1") refl;
  ip_parsed = refl;
  addr_column = IsColumn-test (codes "00:11:22:33:44:ff") refl;
  addr_is_mac = λ e d. refl;
  mac_fits = (omega arith, omega arith, omega arith, omega arith, omega arith, omega arith);
  mask_column = IsColumn-test (codes "*") refl;
  device_column = IsColumn-test (codes "eth0") refl;
  device_fits = omega arith;
}

fixed-IsArpRow : IsArpRow pton fixed
unfolding is_space str_eq hex_text
fixed-IsArpRow = record {
  type_fits = (omega arith, omega arith, omega arith);
  flags_fit = (omega arith, omega arith, omega arith);
  ip_column = IsColumn-test (codes "192.168.1.2") refl;
  ip_parsed = refl;
  addr_column = IsColumn-test (codes "00:11:22:33:44:ee") refl;
  addr_is_mac = λ e d. refl;
  mac_fits = (omega arith, omega arith, omega arith, omega arith, omega arith, omega arith);
  mask_column = IsColumn-test (codes "*") refl;
  device_column = IsColumn-test (codes "eth0") refl;
  device_fits = omega arith;
}

tunnel-IsArpRow : IsArpRow pton tunnel
unfolding is_space str_eq hex_text
tunnel-IsArpRow = record {
  type_fits = (omega arith, omega arith, omega arith);
  flags_fit = (omega arith, omega arith, omega arith);
  ip_column = IsColumn-test (codes "192.168.1.2") refl;
  ip_parsed = refl;
  addr_column = IsColumn-test (codes "0a:00:00:02") refl;
  addr_is_mac = λ e d. absurd (omega (arith, e));
  mac_fits = (omega arith, omega arith, omega arith, omega arith, omega arith, omega arith);
  mask_column = IsColumn-test (codes "*") refl;
  device_column = IsColumn-test (codes "gre1") refl;
  device_fits = omega arith;
}

arp_rows-IsArpRow : All (IsArpRow pton) arp_rows
arp_rows-IsArpRow = (learned-IsArpRow, (fixed-IsArpRow, (tunnel-IsArpRow, tt)))

arp_rows_fit : All (λ r. IsLine 255 (arp_text r)) arp_rows
unfolding hex_text
arp_rows_fit = (
  IsLine-test 255 (arp_text learned) refl,
  (IsLine-test 255 (arp_text fixed) refl, (IsLine-test 255 (arp_text tunnel) refl, tt)),
)

net_read_arp_lem_example :
    net_read_arp pton (some (file_of (arp_header ∷ map arp_text arp_rows))) 64
    ≡ some (take 64 (somes (map arp_row_entry arp_rows)))
net_read_arp_lem_example =
    net_read_arp_lem pton arp_header arp_rows 64 (omega arith) (IsLine-test 255 arp_header refl)
      arp_rows-IsArpRow arp_rows_fit

abbrev dev_row : DevRow
dev_row = record {
  indent = 2;
  name = codes "eth0";
  columns =
      (0, 1000)
      ∷ (3, 20)
      ∷ (0, 1)
      ∷ (0, 2)
      ∷ (0, 0)
      ∷ (0, 0)
      ∷ (0, 0)
      ∷ (0, 0)
      ∷ (0, 3000)
      ∷ (3, 30)
      ∷ (0, 3)
      ∷ (0, 4)
      ∷ (0, 0)
      ∷ (0, 5)
      ∷ (0, 0)
      ∷ (0, 0)
      ∷ [];
}

dev_row-IsDevRow : IsDevRow dev_row
dev_row-IsDevRow = record {
  name_bytes = (
    (omega arith, omega arith),
    ((omega arith, omega arith), ((omega arith, omega arith), ((omega arith, omega arith), tt))),
  );
  name_fits = omega arith;
  sixteen = refl;
  columns_fit = ground arith;
}

dev_row_fits : IsLine 511 (dev_text dev_row)
unfolding decimal_nat digits
dev_row_fits = IsLine-test 511 (dev_text dev_row) refl

parse_proc_net_dev_lem_example :
    parse_proc_net_dev
      (some (file_of (codes "Inter-|" ∷ codes " face |bytes" ∷ map dev_text (dev_row ∷ []))))
      8
    ≡ take 8 (somes (map row_stats (dev_row ∷ [])))
parse_proc_net_dev_lem_example =
    parse_proc_net_dev_lem (codes "Inter-|") (codes " face |bytes") (dev_row ∷ []) 8
      (IsLine-test 511 (codes "Inter-|") refl) (IsLine-test 511 (codes " face |bytes") refl)
      (dev_row-IsDevRow, tt) (dev_row_fits, tt)
