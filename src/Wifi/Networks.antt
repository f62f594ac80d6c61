-- ===== src/Wifi/Networks.antt =====
-- What the parser of wifi_mgr_scan makes of the lines of one network.
use embedded_network_monitor.Prelude.{
  ℕ, ◌+◌, ◌-◌, ◌<◌, ◌≡◌, refl, sym, ap, ◌∙◌, inl, inr, true, false, none, some, List, [], ◌∷◌, ◌++◌,
  append_assoc, arith, ltb, ◌==◌, Bool-cases, Bytes, codes, length, get_or, set, take, All,
  starts_with,
}
use embedded_network_monitor.Wifi.Scan.{
  behind, ScanResult, scan_line, scan_lines, Scan, blank_result, freq_step, max_networks,
  signal_step, trim_ssid, ssid_step, ssid_max, at_cur, count_cur, has_ssid,
}
use embedded_network_monitor.Collector.State.{modify}
use embedded_network_monitor.Config.Text.{atoi}

-- A network in the output: what stands behind `freq: `, `signal: ` and `SSID: `, and the other lines in
-- front of each of these and behind them.
pub record Network : Type 0 where
  pub head : List Bytes
  pub freq : Bytes
  pub upper : List Bytes
  pub signal : Bytes
  pub lower : List Bytes
  pub name : Bytes
  pub elements : List Bytes

abbrev pub freq_line : Network → Bytes
freq_line n = 9 ∷ (codes "freq: " ++ n.freq)

abbrev pub signal_line : Network → Bytes
signal_line n = 9 ∷ (codes "signal: " ++ n.signal)

abbrev pub ssid_line : Network → Bytes
ssid_line n = 9 ∷ (codes "SSID: " ++ n.name)

abbrev pub network_lines : Network → List Bytes
network_lines n =
    n.head ++ (freq_line n ∷ (n.upper ++ (signal_line n ∷ (n.lower ++ (ssid_line n ∷ n.elements)))))

abbrev pub iw_lines : List Network → List Bytes
iw_lines [] = []
iw_lines (n ∷ ns) = network_lines n ++ iw_lines ns

-- a line in which the parser finds nothing
abbrev IsOther : Bytes → Type 0
IsOther line =
    (behind (codes "SSID: ") line ≡ none)
    × (behind (codes "signal: ") line ≡ none)
    × (behind (codes "freq: ") line ≡ none)

-- the entry of a network when its name has been read
abbrev pub fresh : Network → ScanResult
fresh n = record blank_result { ssid = trim_ssid (take (ssid_max - 1) n.name) }

-- The texts of a network hold no other label, and its name is not blank.
pub record IsNetwork (n : Network) : Type 0 where
  pub head_plain : All IsOther n.head
  pub upper_plain : All IsOther n.upper
  pub lower_plain : All IsOther n.lower
  pub elements_plain : All IsOther n.elements
  pub freq_signal : behind (codes "signal: ") n.freq ≡ none
  pub freq_ssid : behind (codes "SSID: ") n.freq ≡ none
  pub signal_freq : behind (codes "freq: ") n.signal ≡ none
  pub signal_ssid : behind (codes "SSID: ") n.signal ≡ none
  pub name_freq : behind (codes "freq: ") n.name ≡ none
  pub name_signal : behind (codes "signal: ") n.name ≡ none
  pub name_shown : (length (fresh n).ssid == 0) ≡ false

-- an entry with the frequency and the signal of the network `n`
abbrev pub marked : Network → ScanResult → ScanResult
marked n r = record r { frequency_mhz = atoi n.freq; signal_dbm = atoi n.signal }

-- The array from the entry `r` on, with `rest` behind it, when the networks that follow have been read.
abbrev pub filled_from : ScanResult → List Network → List ScanResult → List ScanResult
filled_from r [] rest = r ∷ rest
filled_from r (n ∷ ns) [] = marked n r ∷ []
filled_from r (n ∷ ns) (x ∷ rest) = marked n r ∷ filled_from (fresh n) ns rest

abbrev pub filled : List Network → List ScanResult → List ScanResult
filled [] results = results
filled (n ∷ ns) [] = []
filled (n ∷ ns) (x ∷ rest) = filled_from (fresh n) ns rest

-- the parser at the entry `r`, behind the entries `done`
abbrev pub at_entry : List ScanResult → ScanResult → List ScanResult → Scan
at_entry done r rest = record {
  num = length done;
  cur = some (length done);
  results = done ++ r ∷ rest;
}

modify-append :
    {A : Type 0} (xs : List A) (x : A) (ys : List A) (g : A → A)
    → modify (xs ++ x ∷ ys) (length xs) g ≡ xs ++ g x ∷ ys
unfolding modify
modify-append [] x ys g = refl
modify-append (y ∷ xs) x ys g = ap (λ r. y ∷ r) (modify-append xs x ys g)

pub set-append :
    {A : Type 0} (xs : List A) (x y : A) (ys : List A)
    → set (xs ++ x ∷ ys) (length xs) y ≡ xs ++ y ∷ ys
set-append [] x y ys = refl
set-append (z ∷ xs) x y ys = ap (λ r. z ∷ r) (set-append xs x y ys)

get_or-append :
    {A : Type 0} (xs : List A) (x : A) (ys : List A) (d : A)
    → get_or (xs ++ x ∷ ys) (length xs) d ≡ x
get_or-append [] x ys d = refl
get_or-append (y ∷ xs) x ys d = get_or-append xs x ys d

scan_line-other : (line : Bytes) (s : Scan) → IsOther line → scan_line line s ≡ s
unfolding scan_line freq_step signal_step ssid_step
scan_line-other line s h = rw (h.0, h.1, h.2) refl

pub scan_lines_full :
    (lines : List Bytes) (s : Scan) → ltb s.num max_networks ≡ false → scan_lines lines s ≡ s
unfolding scan_lines
scan_lines_full [] s h = refl
scan_lines_full (line ∷ lines) s h = rw h refl

pub scan_lines-cons :
    (line : Bytes) (lines : List Bytes) (s : Scan)
    → ltb s.num max_networks ≡ true
    → scan_lines (line ∷ lines) s ≡ scan_lines lines (scan_line line s)
unfolding scan_lines
scan_lines-cons line lines s h = rw h refl

pub scan_lines-others :
    (xs ys : List Bytes) (s : Scan) → All IsOther xs → scan_lines (xs ++ ys) s ≡ scan_lines ys s
scan_lines-others [] ys s h = refl
scan_lines-others (x ∷ xs) ys s h = elim (Bool-cases (ltb s.num max_networks)) [
  | inl e ↦
      scan_lines-cons x (xs ++ ys) s e
      ∙ ap (scan_lines (xs ++ ys)) (scan_line-other x s h.0)
      ∙ scan_lines-others xs ys s h.1
  | inr e ↦ scan_lines_full (x ∷ xs ++ ys) s e ∙ sym (scan_lines_full ys s e)
]

pub scan_line-freq :
    (n : Network) (s : Scan) → IsNetwork n → scan_line (freq_line n) s ≡ freq_step (some n.freq) s
unfolding scan_line signal_step ssid_step behind starts_with
scan_line-freq n s h = rw (h.freq_signal, h.freq_ssid) refl

pub scan_line-signal :
    (n : Network) (s : Scan)
    → IsNetwork n
    → scan_line (signal_line n) s ≡ signal_step (some n.signal) s
unfolding scan_line freq_step ssid_step behind starts_with
scan_line-signal n s h = rw (h.signal_freq, h.signal_ssid) refl

pub scan_line-ssid :
    (n : Network) (s : Scan) → IsNetwork n → scan_line (ssid_line n) s ≡ ssid_step (some n.name) s
unfolding scan_line freq_step signal_step behind starts_with
scan_line-ssid n s h = rw (h.name_freq, h.name_signal) refl

freq_step-at_entry :
    (text : Bytes) (done : List ScanResult) (r : ScanResult) (rest : List ScanResult)
    → freq_step (some text) (at_entry done r rest)
      ≡ at_entry done (record r { frequency_mhz = atoi text }) rest
unfolding freq_step at_cur
freq_step-at_entry text done r rest =
    ap (λ rs. record { num = length done; cur = some (length done); results = rs })
      (modify-append done r rest (λ x. record x { frequency_mhz = atoi text }))

signal_step-at_entry :
    (text : Bytes) (done : List ScanResult) (r : ScanResult) (rest : List ScanResult)
    → signal_step (some text) (at_entry done r rest)
      ≡ at_entry done (record r { signal_dbm = atoi text }) rest
unfolding signal_step at_cur
signal_step-at_entry text done r rest =
    ap (λ rs. record { num = length done; cur = some (length done); results = rs })
      (modify-append done r rest (λ x. record x { signal_dbm = atoi text }))

-- The lines of a network, with `more` behind it, one group at a time: the other lines change nothing.
pub network_lines-append :
    (n : Network) (more : List Bytes)
    → network_lines n ++ more
      ≡ n.head
        ++ (freq_line n
            ∷ (n.upper ++ (signal_line n ∷ (n.lower ++ (ssid_line n ∷ (n.elements ++ more))))))
network_lines-append n more = simp append_assoc

-- Of the lines of a network, the three labelled ones count while there is room.
pub scan_lines-labels :
    (n : Network) (more : List Bytes) (s t u : Scan)
    → IsNetwork n
    → ltb s.num max_networks ≡ true
    → freq_step (some n.freq) s ≡ t
    → ltb t.num max_networks ≡ true
    → signal_step (some n.signal) t ≡ u
    → ltb u.num max_networks ≡ true
    → scan_lines (network_lines n ++ more) s ≡ scan_lines more (ssid_step (some n.name) u)
scan_lines-labels n more s t u h room₁ e₁ room₂ e₂ room₃ =
    let named : List Bytes = ssid_line n ∷ (n.elements ++ more) in
    let measured : List Bytes = signal_line n ∷ (n.lower ++ named) in
    let tuned : List Bytes = freq_line n ∷ (n.upper ++ measured) in
    ap (λ lines. scan_lines lines s) (network_lines-append n more)
    ∙ scan_lines-others n.head tuned s h.head_plain
    ∙ scan_lines-cons (freq_line n) (n.upper ++ measured) s room₁
    ∙ ap (scan_lines (n.upper ++ measured)) (scan_line-freq n s h ∙ e₁)
    ∙ scan_lines-others n.upper measured t h.upper_plain
    ∙ scan_lines-cons (signal_line n) (n.lower ++ named) t room₂
    ∙ ap (scan_lines (n.lower ++ named)) (scan_line-signal n t h ∙ e₂)
    ∙ scan_lines-others n.lower named u h.lower_plain
    ∙ scan_lines-cons (ssid_line n) (n.elements ++ more) u room₃
    ∙ ap (scan_lines (n.elements ++ more)) (scan_line-ssid n u h)
    ∙ scan_lines-others n.elements more (ssid_step (some n.name) u) h.elements_plain

-- The lines of a network give the entry at hand its frequency and its signal, and then open the entry
-- of the network.
pub scan_lines-network :
    (n : Network) (more : List Bytes) (done : List ScanResult) (r : ScanResult)
    (rest : List ScanResult)
    → IsNetwork n
    → length done < max_networks
    → scan_lines (network_lines n ++ more) (at_entry done r rest)
      ≡ scan_lines more (ssid_step (some n.name) (at_entry done (marked n r) rest))
scan_lines-network n more done r rest h lt =
    let room : ltb (length done) max_networks ≡ true = ground arith in
    let freqd = record r { frequency_mhz = atoi n.freq } in
    scan_lines-labels n more (at_entry done r rest) (at_entry done freqd rest)
      (at_entry done (marked n r) rest) h room (freq_step-at_entry n.freq done r rest) room
      (signal_step-at_entry n.signal done freqd rest) room

pub count_cur-entry :
    (num : ℕ) (done : List ScanResult) (r : ScanResult) (rest : List ScanResult)
    → (length r.ssid == 0) ≡ false
    → count_cur (record { num = num; cur = some (length done); results = done ++ r ∷ rest })
      ≡ num + 1
unfolding count_cur has_ssid
count_cur-entry num done r rest h = rw (get_or-append done r rest blank_result, h) refl
