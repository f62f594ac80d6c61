-- ===== src/Wifi/Bounds.antt =====
-- That the results of a scan stay inside their array, for `wifi_mgr_scan`.
use embedded_network_monitor.Prelude.{
  ℕ, ◌+◌, ◌≤◌, ◌<◌, ◌≡◌, refl, ◌∙◌, inl, inr, Option, none, some, List, [], ◌∷◌, arith, ltb,
  Bool-cases, Bytes, length, length-set,
}
use embedded_network_monitor.Wifi.Scan.{
  Scan, count_cur, ssid_step, at_cur, signal_step, freq_step, scan_lines, scan_text, max_networks,
  has_ssid, ScanResult, scan_line, tokens,
}
use embedded_network_monitor.Collector.Lookup.{length-modify}

-- The results and the pointer stay inside the array, and the count stops at its size.
record IsScan (s : Scan) : Type 0 where
  num_in : s.num ≤ max_networks
  cur_in : (k : ℕ) → s.cur ≡ some k → k < max_networks
  size : length s.results ≡ max_networks

count_cur_le : (s : Scan) → count_cur s ≤ s.num + 1
unfolding count_cur
count_cur_le s = elim (Bool-cases (has_ssid s.cur s.results)) [
  | inl e ↦ rw e (omega arith)
  | inr e ↦ rw e (omega arith)
]

ssid_step-IsScan :
    (o : Option Bytes) (s : Scan) → IsScan s → s.num < max_networks → IsScan (ssid_step o s)
unfolding ssid_step
ssid_step-IsScan none s h lt = h
ssid_step-IsScan (some ssid) s h lt = elim (Bool-cases (ltb (count_cur s) max_networks)) [
  | inl e ↦ rw e (record {
    num_in = ground arith;
    cur_in = λ k same. (let here : count_cur s ≡ k = cc in ground arith);
    size = length-set s.results (count_cur s) _ ∙ h.size;
  })
  | inr e ↦
      rw e (record { num_in = omega (arith, count_cur_le s); cur_in = h.cur_in; size = h.size })
]

length-at_cur :
    (change : ScanResult → ScanResult) (cur : Option ℕ) (results : List ScanResult)
    → length (at_cur change cur results) ≡ length results
unfolding at_cur
length-at_cur change none results = refl
length-at_cur change (some k) results = length-modify results k change

signal_step-IsScan : (o : Option Bytes) (s : Scan) → IsScan s → IsScan (signal_step o s)
unfolding signal_step
signal_step-IsScan none s h = h
signal_step-IsScan (some text) s h = record {
  num_in = h.num_in;
  cur_in = h.cur_in;
  size = length-at_cur _ s.cur s.results ∙ h.size;
}

freq_step-IsScan : (o : Option Bytes) (s : Scan) → IsScan s → IsScan (freq_step o s)
unfolding freq_step
freq_step-IsScan none s h = h
freq_step-IsScan (some text) s h = record {
  num_in = h.num_in;
  cur_in = h.cur_in;
  size = length-at_cur _ s.cur s.results ∙ h.size;
}

scan_lines-IsScan : (lines : List Bytes) (s : Scan) → IsScan s → IsScan (scan_lines lines s)
unfolding scan_lines scan_line
scan_lines-IsScan [] s h = h
scan_lines-IsScan (line ∷ lines) s h = elim (Bool-cases (ltb s.num max_networks)) [
  | inl e ↦ rw e (
      scan_lines-IsScan lines _
        (freq_step-IsScan _ _ (signal_step-IsScan _ _ (ssid_step-IsScan _ s h (ground arith)))))
  | inr e ↦ rw e h
]

-- the parser before its first line
abbrev pub scan_start : List ScanResult → Scan
scan_start results = record { num = 0; cur = none; results = results }

-- the index that the pointer has, if it has one, is below `n`
abbrev pub Inside : ℕ → Option ℕ → Type 0
Inside n none = Unit
Inside n (some k) = k < n

Inside-all : (n : ℕ) (o : Option ℕ) → ((k : ℕ) → o ≡ some k → k < n) → Inside n o
Inside-all n none h = tt
Inside-all n (some k) h = h k refl

scan_start-IsScan :
    (results : List ScanResult) → length results ≡ max_networks → IsScan (scan_start results)
scan_start-IsScan results h = record {
  num_in = omega arith;
  cur_in = λ k e. ground (arith, e);
  size = h;
}

-- After any lines, the pointer, to which the parser has written, is inside the array.
pub scan_lines-Inside :
    (lines : List Bytes) (results : List ScanResult)
    → length results ≡ max_networks
    → Inside (length results) (scan_lines lines (scan_start results)).cur
scan_lines-Inside lines results h =
    let s = scan_lines lines (scan_start results) in
    let ok = scan_lines-IsScan lines (scan_start results) (scan_start-IsScan results h) in
    Inside-all (length results) s.cur (λ k e. omega (arith, ok.cur_in k e, h))

-- Whatever the output is, the results keep their array, and the count is at most one more than its
-- size.
pub scan_text_in :
    (buf : Bytes) (results : List ScanResult)
    → length results ≡ max_networks
    → ((scan_text buf results).0 ≤ max_networks + 1)
      × (length (scan_text buf results).1 ≡ max_networks)
unfolding scan_text
scan_text_in buf results h =
    let s = scan_lines (tokens [] buf) (scan_start results) in
    let ok = scan_lines-IsScan (tokens [] buf) (scan_start results) (scan_start-IsScan results h) in
    (omega (arith, count_cur_le s, ok.num_in), ok.size)
