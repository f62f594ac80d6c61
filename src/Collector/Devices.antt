-- ===== src/Collector/Devices.antt =====
-- `parse_proc_net_dev` on the table that the kernel writes to /proc/net/dev.
use embedded_network_monitor.Prelude.{
  ℕ, zero, suc, ◌^◌, ◌<◌, ◌≡◌, refl, sym, ap, ap₂, ◌∙◌, ◌≢◌, true, false, Option, none, some, List,
  [], ◌∷◌, ◌++◌, map, append_assoc, arith, leb, ◌==◌, if◌then◌else◌, Bytes, codes, str_eq, length,
  get_or, take, drop, All, take_all, All-map,
}
use embedded_network_monitor.Tables.Hex.{EndsDec}
use embedded_network_monitor.Tables.Numerals.{
  blanks, skip_space-blanks, scan_signed-decimal_nat, blanks-append,
}
use embedded_network_monitor.Config.Text.{decimal_nat, is_digit, skip_space}
use embedded_network_monitor.NetState.{iface_name_max, NetStats}
use embedded_network_monitor.Collector.Proc.{
  scan_numbers, split_colon, parse_line, scan_signed, parse_parts, parse_columns, stats_from,
  keep_stats_of, parse_lines, parse_proc_net_dev,
}
use embedded_network_monitor.Alerts.Ignore.{skip_blanks}
use embedded_network_monitor.Tables.Readers.{keep, read_lines}
use embedded_network_monitor.Tables.Files.{
  IsLine, file_of, somes, fgets_from-file_of, with_newlines, read_lines-somes,
}

-- a column: its number behind one space and `gap` more
abbrev pub column_text : List (ℕ × ℕ) → Bytes → Bytes
column_text [] tail = tail
column_text ((gap, v) ∷ columns) tail = blanks (suc gap) (decimal_nat v ++ column_text columns tail)

-- a row: the name behind spaces, a colon, and the numbers of the columns
pub record DevRow : Type 0 where
  pub indent : ℕ
  pub name : Bytes
  pub columns : List (ℕ × ℕ)

abbrev dev_before : DevRow → Bytes → Bytes
dev_before r tail = blanks r.indent (r.name ++ (b':' ∷ column_text r.columns tail))

abbrev pub dev_text : DevRow → Bytes
dev_text r = dev_before r []

-- neither a colon nor a space
abbrev pub IsNameByte : ℕ → Type 0
IsNameByte c = (c ≢ b':') × (c ≢ 32)

pub record IsDevRow (r : DevRow) : Type 0 where
  pub name_bytes : All IsNameByte r.name
  pub name_fits : length r.name < iface_name_max
  pub sixteen : length r.columns ≡ 16
  pub columns_fit : All (λ c. c.1 < 2 ^ 64) r.columns

abbrev pub numbers : List (ℕ × ℕ) → List ℕ
numbers [] = []
numbers ((gap, v) ∷ columns) = v ∷ numbers columns

length-numbers : (columns : List (ℕ × ℕ)) → length (numbers columns) ≡ length columns
length-numbers [] = refl
length-numbers (c ∷ columns) = ap suc (length-numbers columns)

column_text-EndsDec : (columns : List (ℕ × ℕ)) → EndsDec (column_text columns (10 ∷ []))
column_text-EndsDec [] = unfold is_digit in refl
column_text-EndsDec (c ∷ columns) = unfold is_digit in refl

scan_numbers-cons :
    (n : ℕ) (s t : Bytes) (v : ℕ)
    → scan_signed 64 (skip_space s) ≡ some (v, t)
    → scan_numbers (suc n) s ≡ v ∷ scan_numbers n t
unfolding scan_numbers
scan_numbers-cons n s t v h = rw (h, scan_numbers) refl

scan_numbers-column_text :
    (columns : List (ℕ × ℕ))
    → All (λ c. c.1 < 2 ^ 64) columns
    → scan_numbers (length columns) (column_text columns (10 ∷ [])) ≡ numbers columns
scan_numbers-column_text [] h = unfold scan_numbers in refl
scan_numbers-column_text ((gap, v) ∷ columns) h =
    let rest = column_text columns (10 ∷ []) in
    scan_numbers-cons (length columns) (blanks (suc gap) (decimal_nat v ++ rest)) rest v (
      ap (scan_signed 64) (skip_space-blanks (suc gap) (decimal_nat v ++ rest))
      ∙ scan_signed-decimal_nat 64 v rest (column_text-EndsDec columns) h.0)
    ∙ ap (λ r. v ∷ r) (scan_numbers-column_text columns h.1)

split_colon-blanks :
    (n : ℕ) (s before after : Bytes)
    → split_colon s ≡ some (before, after)
    → split_colon (blanks n s) ≡ some (blanks n before, after)
unfolding split_colon
split_colon-blanks zero s before after h = h
split_colon-blanks (suc n) s before after h = rw (split_colon-blanks n s before after h) refl

split_colon-name :
    (name rest : Bytes)
    → All IsNameByte name
    → split_colon (name ++ (b':' ∷ rest)) ≡ some (name, rest)
unfolding split_colon
split_colon-name [] rest h = refl
split_colon-name (c ∷ name) rest h =
    let other : (c == b':') ≡ false = ground (arith, h.0.0) in
    rw (split_colon-name name rest h.1, other) refl

skip_blanks-blanks : (n : ℕ) (s : Bytes) → skip_blanks (blanks n s) ≡ skip_blanks s
unfolding skip_blanks
skip_blanks-blanks zero s = refl
skip_blanks-blanks (suc n) s = skip_blanks-blanks n s

skip_blanks-name : (name : Bytes) → All IsNameByte name → skip_blanks name ≡ name
unfolding skip_blanks
skip_blanks-name [] h = refl
skip_blanks-name (c ∷ name) h = ground (arith, h.0.1)

-- the statistics of a row; the loopback has none
abbrev pub row_stats : DevRow → Option NetStats
row_stats r =
    let ns = numbers r.columns in
    if str_eq r.name (codes "lo")
    then none
    else some (record {
      name = r.name;
      rx_bytes = get_or ns 0 0;
      rx_packets = get_or ns 1 0;
      rx_errors = get_or ns 2 0;
      rx_dropped = get_or ns 3 0;
      tx_bytes = get_or ns 8 0;
      tx_packets = get_or ns 9 0;
      tx_errors = get_or ns 10 0;
      tx_dropped = get_or ns 11 0;
      collisions = get_or ns 13 0;
    })

column_text-append :
    (columns : List (ℕ × ℕ)) (s t : Bytes)
    → column_text columns s ++ t ≡ column_text columns (s ++ t)
column_text-append [] s t = refl
column_text-append ((gap, v) ∷ columns) s t =
    blanks-append (suc gap) (decimal_nat v ++ column_text columns s) t
    ∙ ap (blanks (suc gap)) (
        append_assoc (decimal_nat v) (column_text columns s) t
        ∙ ap (λ r. decimal_nat v ++ r) (column_text-append columns s t))

dev_text-newline : (r : DevRow) → dev_text r ++ 10 ∷ [] ≡ dev_before r (10 ∷ [])
dev_text-newline r =
    blanks-append r.indent (r.name ++ (b':' ∷ column_text r.columns [])) (10 ∷ [])
    ∙ ap (blanks r.indent) (
        append_assoc r.name (b':' ∷ column_text r.columns []) (10 ∷ [])
        ∙ ap (λ t. r.name ++ (b':' ∷ t)) (column_text-append r.columns [] (10 ∷ [])))

parse_line-dev_text : (r : DevRow) → IsDevRow r → parse_line (dev_text r ++ 10 ∷ []) ≡ row_stats r
unfolding parse_line parse_parts parse_columns stats_from
parse_line-dev_text r h =
    let split =
      split_colon-blanks r.indent (r.name ++ (b':' ∷ column_text r.columns (10 ∷ []))) r.name
        (column_text r.columns (10 ∷ []))
        (split_colon-name r.name (column_text r.columns (10 ∷ [])) h.name_bytes) in
    let full : leb 16 (length (numbers r.columns)) ≡ true =
      ground (arith, length-numbers r.columns, h.sixteen) in
    let scanned : scan_numbers 16 (column_text r.columns (10 ∷ [])) ≡ numbers r.columns =
      ap (λ n. scan_numbers n (column_text r.columns (10 ∷ []))) (sym h.sixteen)
      ∙ scan_numbers-column_text r.columns h.columns_fit in
    rw
      (
        dev_text-newline r,
        split,
        skip_blanks-blanks r.indent r.name,
        skip_blanks-name r.name h.name_bytes,
        take_all 15 r.name (omega (arith, h.name_fits)),
        scanned,
        full,
      )
      refl

keep_stats_of-keep :
    (o : Option NetStats) (same less : List NetStats) → keep_stats_of o same less ≡ keep o same less
unfolding keep_stats_of keep
keep_stats_of-keep none same less = refl
keep_stats_of-keep (some s) same less = refl

parse_lines-read_lines :
    (room : ℕ) (lines : List Bytes) → parse_lines room lines ≡ read_lines parse_line room lines
unfolding parse_lines read_lines
parse_lines-read_lines zero [] = refl
parse_lines-read_lines (suc room) [] = refl
parse_lines-read_lines zero (line ∷ lines) = refl
parse_lines-read_lines (suc room) (line ∷ lines) =
    keep_stats_of-keep (parse_line line) (parse_lines (suc room) lines) (parse_lines room lines)
    ∙ ap₂ (keep (parse_line line)) (parse_lines-read_lines (suc room) lines)
        (parse_lines-read_lines room lines)

rows-stats :
    (rows : List DevRow)
    → All IsDevRow rows
    → All (λ r. parse_line (dev_text r ++ 10 ∷ []) ≡ row_stats r) rows
rows-stats [] h = tt
rows-stats (r ∷ rows) h = (parse_line-dev_text r h.0, rows-stats rows h.1)

-- Of a table as the kernel writes it, with its two header lines and a row of sixteen numbers of 64
-- bits for each interface, the parser gives the interfaces other than the loopback, as many as fit
-- the array, in order, each with its name and the numbers of its columns.
pub parse_proc_net_dev_lem :
    (header₁ header₂ : Bytes) (rows : List DevRow) (max_count : ℕ)
    → IsLine 511 header₁
    → IsLine 511 header₂
    → All IsDevRow rows
    → All (λ r. IsLine 511 (dev_text r)) rows
    → parse_proc_net_dev (some (file_of (header₁ ∷ header₂ ∷ map dev_text rows))) max_count
      ≡ take max_count (somes (map row_stats rows))
unfolding parse_proc_net_dev
parse_proc_net_dev_lem header₁ header₂ rows max_count h₁ h₂ rs fits =
    ap (λ lines. parse_lines max_count (drop 2 lines))
      (fgets_from-file_of 512 (header₁ ∷ header₂ ∷ map dev_text rows)
        (h₁, (h₂, All-map (IsLine 511) dev_text rows fits)))
    ∙ parse_lines-read_lines max_count (with_newlines (map dev_text rows))
    ∙ read_lines-somes parse_line dev_text row_stats max_count rows (rows-stats rows rs)
