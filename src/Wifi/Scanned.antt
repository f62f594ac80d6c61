-- ===== src/Wifi/Scanned.antt =====
-- The parser on the output of `iw`, which writes the frequency and the signal of a network before its
-- name.
use embedded_network_monitor.Prelude.{
  ℕ, ◌+◌, ◌<◌, min, ◌≡◌, refl, sym, ap, ap₂, ◌∙◌, ◌≢◌, true, false, none, some, List, [], ◌∷◌, ◌++◌,
  append-nil, append_assoc, arith, ltb, ◌==◌, Bytes, length, set, All, length-append,
}
use embedded_network_monitor.Wifi.Scan.{
  ScanResult, scan_lines, Scan, freq_step, max_networks, signal_step, ssid_step, at_cur, count_cur,
  has_ssid, tokens, scan_text,
}
use embedded_network_monitor.Tables.Files.{file_of}
use embedded_network_monitor.Wifi.Networks.{
  Network, network_lines, iw_lines, fresh, IsNetwork, marked, filled_from, filled, at_entry,
  set-append, scan_lines_full, scan_lines-labels, scan_lines-network, count_cur-entry,
}

set-behind :
    {A : Type 0} (done : List A) (r x y : A) (rest : List A)
    → set (done ++ r ∷ x ∷ rest) (length done + 1) y ≡ (done ++ r ∷ []) ++ y ∷ rest
set-behind done r x y rest =
    let place : length done + 1 ≡ length (done ++ r ∷ []) =
      omega (arith, length-append done (r ∷ [])) in
    ap₂ (λ l i. set l i y) (sym (append_assoc done (r ∷ []) (x ∷ rest))) place
    ∙ set-append (done ++ r ∷ []) x y rest

ssid_step-room :
    (n : Network) (done : List ScanResult) (r x : ScanResult) (rest : List ScanResult)
    → (length r.ssid == 0) ≡ false
    → length done + 1 < max_networks
    → ssid_step (some n.name) (at_entry done r (x ∷ rest))
      ≡ at_entry (done ++ r ∷ []) (fresh n) rest
unfolding ssid_step
ssid_step-room n done r x rest h lt =
    let room : ltb (length done + 1) max_networks ≡ true = ground arith in
    let place : length done + 1 ≡ length (done ++ r ∷ []) =
      omega (arith, length-append done (r ∷ [])) in
    rw (count_cur-entry (length done) done r (x ∷ rest) h, room)
      (ap₂ (λ num rs. record { num = num; cur = some num; results = rs }) place
        (set-behind done r x (fresh n) rest))

ssid_step_full :
    (n : Network) (done : List ScanResult) (r : ScanResult) (rest : List ScanResult)
    → (length r.ssid == 0) ≡ false
    → length done + 1 ≡ max_networks
    → ssid_step (some n.name) (at_entry done r rest)
      ≡ record { num = length done + 1; cur = some (length done); results = done ++ r ∷ rest }
unfolding ssid_step
ssid_step_full n done r rest h eq =
    let full : ltb (length done + 1) max_networks ≡ false = ground arith in
    rw (count_cur-entry (length done) done r rest h, full) refl

-- the count and the array at the end of the loop
abbrev Ends : List Network → Scan → ℕ → List ScanResult → Type 0
Ends ns s count results =
    (count_cur (scan_lines (iw_lines ns) s) ≡ count)
    × ((scan_lines (iw_lines ns) s).results ≡ results)

entry_run :
    (ns : List Network) (done : List ScanResult) (r : ScanResult) (rest : List ScanResult)
    → All IsNetwork ns
    → (length r.ssid == 0) ≡ false
    → length done + 1 + length rest ≡ max_networks
    → Ends ns
        (at_entry done r rest)
        (min (length done + 1 + length ns) (max_networks + 1))
        (done ++ filled_from r ns rest)
entry_run [] done r rest hs h size =
    unfold scan_lines in (count_cur-entry (length done) done r rest h ∙ omega (arith, size), refl)
entry_run (n ∷ ns) done r [] hs h size =
    let s : Scan = record {
      num = length done + 1;
      cur = some (length done);
      results = done ++ marked n r ∷ [];
    } in
    let eq : length done + 1 ≡ max_networks = omega (arith, size) in
    let full : ltb (length done + 1) max_networks ≡ false = ground (arith, eq) in
    let run : scan_lines (iw_lines (n ∷ ns)) (at_entry done r []) ≡ s =
      scan_lines-network n (iw_lines ns) done r [] hs.0 (omega (arith, size))
      ∙ ap (scan_lines (iw_lines ns)) (ssid_step_full n done (marked n r) [] h eq)
      ∙ scan_lines_full (iw_lines ns) s full in
    (
      ap count_cur run
          ∙ count_cur-entry (length done + 1) done (marked n r) [] h
          ∙ omega (arith, eq),
      ap (λ t. t.results) run,
    )
entry_run (n ∷ ns) done r (x ∷ rest) hs h size =
    let run : scan_lines (iw_lines (n ∷ ns)) (at_entry done r (x ∷ rest))
        ≡ scan_lines (iw_lines ns) (at_entry (done ++ marked n r ∷ []) (fresh n) rest) =
      scan_lines-network n (iw_lines ns) done r (x ∷ rest) hs.0 (omega (arith, size))
      ∙ ap (scan_lines (iw_lines ns))
          (ssid_step-room n done (marked n r) x rest h (omega (arith, size))) in
    let grown = length-append done (marked n r ∷ []) in
    let (count, results) =
      entry_run ns (done ++ marked n r ∷ []) (fresh n) rest hs.1 hs.0.name_shown
        (omega (arith, size, grown)) in
    (
      ap count_cur run ∙ count ∙ omega (arith, grown),
      ap (λ t. t.results) run
          ∙ results
          ∙ append_assoc done (marked n r ∷ []) (filled_from (fresh n) ns rest),
    )

abbrev start : List ScanResult → Scan
start results = record { num = 0; cur = none; results = results }

-- There is no entry at hand for the frequency and the signal of the first network.
start-network :
    (n : Network) (more : List Bytes) (x : ScanResult) (rest : List ScanResult)
    → IsNetwork n
    → scan_lines (network_lines n ++ more) (start (x ∷ rest))
      ≡ scan_lines more (at_entry [] (fresh n) rest)
start-network n more x rest h =
    let s = start (x ∷ rest) in
    let opened : ssid_step (some n.name) s ≡ at_entry [] (fresh n) rest =
      unfold ssid_step count_cur has_ssid in refl in
    let no_freq : freq_step (some n.freq) s ≡ s = unfold freq_step at_cur in refl in
    let no_signal : signal_step (some n.signal) s ≡ s = unfold signal_step at_cur in refl in
    scan_lines-labels n more s s s h refl no_freq refl no_signal refl ∙ ap (scan_lines more) opened

-- The first network opens the first entry.
start_run :
    (ns : List Network) (results : List ScanResult)
    → All IsNetwork ns
    → length results ≡ max_networks
    → Ends ns (start results) (min (length ns) (max_networks + 1)) (filled ns results)
start_run [] results hs size = unfold scan_lines count_cur has_ssid in (refl, refl)
start_run (n ∷ ns) [] hs size = absurd (omega (arith, size))
start_run (n ∷ ns) (x ∷ rest) hs size =
    let run : scan_lines (iw_lines (n ∷ ns)) (start (x ∷ rest))
        ≡ scan_lines (iw_lines ns) (at_entry [] (fresh n) rest) =
      start-network n (iw_lines ns) x rest hs.0 in
    let (count, filled) =
      entry_run ns [] (fresh n) rest hs.1 hs.0.name_shown (omega (arith, size)) in
    (ap count_cur run ∙ count ∙ omega arith, ap (λ t. t.results) run ∙ filled)

-- a line of the output: not empty, without a newline
abbrev pub IsToken : Bytes → Type 0
IsToken line = All (λ c. c ≢ 10) line × (0 < length line)

tokens-line :
    (line got s : Bytes)
    → All (λ c. c ≢ 10) line
    → 0 < length got + length line
    → tokens got (line ++ 10 ∷ s) ≡ (got ++ line) ∷ tokens [] s
unfolding tokens
tokens-line [] got s h full =
    let some_got : (length got == 0) ≡ false = ground arith in rw (some_got, append-nil) refl
tokens-line (c ∷ line) got s h full =
    let other : (c == 10) ≡ false = ground (arith, h.0) in
    rw other (
      tokens-line line (got ++ c ∷ []) s h.1 (omega (arith, length-append got (c ∷ [])))
      ∙ ap (λ l. l ∷ tokens [] s) (append_assoc got (c ∷ []) line))

tokens-file_of : (lines : List Bytes) → All IsToken lines → tokens [] (file_of lines) ≡ lines
tokens-file_of [] h = unfold tokens in refl
tokens-file_of (line ∷ lines) h =
    tokens-line line [] (file_of lines) h.0.0 (omega (arith, h.0.1))
    ∙ ap (λ l. line ∷ l) (tokens-file_of lines h.1)

-- Of an output of `iw`, in lines that are not empty, in which each network has a frequency, then a signal and then a name that is not
-- blank, among any other lines without these labels, the parser counts one result for each network up to
-- 17, though the array has 16, and each entry has the name of its network with the frequency and the
-- signal of the network that follows, the last entry zeros if none follows.
pub scan_text_lem :
    (ns : List Network) (results : List ScanResult)
    → All IsNetwork ns
    → All IsToken (iw_lines ns)
    → length results ≡ max_networks
    → scan_text (file_of (iw_lines ns)) results
      ≡ (min (length ns) (max_networks + 1), filled ns results)
unfolding scan_text
scan_text_lem ns results hs tokens_ok size =
    let (count, shown) = start_run ns results hs size in
    rw (tokens-file_of (iw_lines ns) tokens_ok) (ap₂ (λ c r. (c, r)) count shown)
