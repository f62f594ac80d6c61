-- ===== src/Config/RoundTrip.antt =====
-- config_load after config_save.
use embedded_network_monitor.Prelude.{
  ℕ, zero, suc, ◌+◌, ◌-◌, ◌<◌, ◌≤◌, ◌≡◌, ◌≢◌, refl, sym, ap, ◌∙◌, true, false, ◌&&◌, ◌||◌, none,
  some, List, [], ◌∷◌, ◌++◌, arith, append-nil, append_assoc, Bytes, leb, ◌==◌, ltb, length,
  length-append, take_all, All,
}
use embedded_network_monitor.Prelude.Int.{pos}
use embedded_network_monitor.Config.Text.{is_space, skip_space}
use embedded_network_monitor.Config.Entries.{
  Entry, Config, max_entries, key_max, val_max, find, append_entry, put,
}
use embedded_network_monitor.Config.File.{
  is_empty, trim_end, trim, split_at_eq, is_comment, load_pair, load_line, load_lines, line_room,
  fgets_lines, load, save,
}

-- no white space in front
abbrev pub Leads : Bytes → Type 0
Leads [] = Unit
Leads (c ∷ s) = is_space c ≡ false

-- A key as a configuration file can hold it.
abbrev pub IsKey : Bytes → Type 0
IsKey [] = ⊥
IsKey (c ∷ s) = (is_space c ≡ false) × (c ≢ b'#')

-- An entry that a line of the file can hold: a key that is not empty, that is no comment and that has
-- no `=`, texts with no white space at either end and no newline, and both short enough.
pub record IsClean (e : Entry) : Type 0 where
  pub key_first : IsKey e.key
  pub key_end : trim_end e.key ≡ e.key
  pub key_bytes : All (λ c. (c ≢ b'=') × (c ≢ 10)) e.key
  pub key_fits : length e.key < key_max
  pub value_first : Leads e.value
  pub value_end : trim_end e.value ≡ e.value
  pub value_bytes : All (λ c. c ≢ 10) e.value
  pub value_fits : length e.value < val_max

-- No key of `rest` stands before its entry, or in `seen`.
abbrev pub Fresh : Config → Config → Type 0
Fresh seen [] = Unit
Fresh seen (e ∷ rest) = (find seen e.key ≡ none) × Fresh (seen ++ (e ∷ [])) rest

fgets_lines-line :
    (line got s : Bytes) (room : ℕ)
    → All (λ c. c ≢ 10) line
    → length line < room
    → fgets_lines room got (line ++ 10 ∷ s) ≡ (got ++ line ++ 10 ∷ []) ∷ fgets_lines line_room [] s
unfolding fgets_lines
fgets_lines-line [] got s room h lt = rw append-nil
fgets_lines-line (c ∷ line) got s (suc room) h lt =
    let more : (c == 10 || leb (suc room) 1) ≡ false = ground arith in
    let less : suc room - 1 ≡ room = omega arith in
    rw (more, less)
      (fgets_lines-line line (got ++ c ∷ []) s room h.1 (omega arith)
        ∙ ap (λ l. (l ++ 10 ∷ []) ∷ fgets_lines line_room [] s) (append_assoc got (c ∷ []) line))
fgets_lines-line (c ∷ line) got s zero h lt = absurd (omega arith)

trim_end-newline : (s : Bytes) → trim_end (s ++ 10 ∷ []) ≡ trim_end s
unfolding trim_end is_space
trim_end-newline [] = refl
trim_end-newline (c ∷ s) = rw (trim_end-newline s)

is_empty-append : (s t : Bytes) → is_empty t ≡ false → is_empty (s ++ t) ≡ false
is_empty-append [] t n = n
is_empty-append (c ∷ s) t n = refl

trim_end-eq_sign : (v : Bytes) → trim_end v ≡ v → trim_end (b'=' ∷ v) ≡ b'=' ∷ v
unfolding trim_end is_space
trim_end-eq_sign v e = rw e

skip_space-first : (c : ℕ) (s : Bytes) → is_space c ≡ false → skip_space (c ∷ s) ≡ c ∷ s
unfolding skip_space
skip_space-first c s h = rw h

trim-first : (c : ℕ) (s : Bytes) → is_space c ≡ false → trim (c ∷ s) ≡ trim_end (c ∷ s)
unfolding trim skip_space
trim-first c s h = ap trim_end (skip_space-first c s h)

trim_end-append : (s t : Bytes) → is_empty t ≡ false → trim_end t ≡ t → trim_end (s ++ t) ≡ s ++ t
unfolding trim_end
trim_end-append [] t n e = e
trim_end-append (c ∷ s) t n e =
    let kept : (is_space c && is_empty (s ++ t)) ≡ false = ground (arith, is_empty-append s t n) in
    rw (trim_end-append s t n e) (rw kept)

split_at_eq-append :
    (k v : Bytes) → All (λ c. (c ≢ b'=') × (c ≢ 10)) k → split_at_eq (k ++ b'=' ∷ v) ≡ some (k, v)
unfolding split_at_eq
split_at_eq-append [] v h = refl
split_at_eq-append (c ∷ k) v h = ground (arith, split_at_eq-append k v h.1)

trim_clean : (s : Bytes) → Leads s → trim_end s ≡ s → trim s ≡ s
unfolding trim skip_space
trim_clean [] h e = e
trim_clean (c ∷ s) h e = rw h e

-- the line that `config_save` writes for an entry
abbrev line_of : Entry → Bytes
line_of e = e.key ++ b'=' ∷ e.value

trim_line :
    (k v : Bytes) → IsKey k → trim_end v ≡ v → trim (k ++ b'=' ∷ v ++ 10 ∷ []) ≡ k ++ b'=' ∷ v
trim_line [] v h e = absurd h
trim_line (c ∷ k) v h e =
    trim-first c _ h.0
    ∙ trim_end-newline (c ∷ k ++ b'=' ∷ v)
    ∙ trim_end-append (c ∷ k) (b'=' ∷ v) refl (trim_end-eq_sign v e)

is_comment-key : (k v : Bytes) → IsKey k → is_comment (k ++ v) ≡ false
is_comment-key [] v h = absurd h
is_comment-key (c ∷ k) v h = ground arith

is_empty-key : (k : Bytes) → IsKey k → is_empty k ≡ false
is_empty-key [] h = absurd h
is_empty-key (c ∷ k) h = refl

IsKey-Leads : (k : Bytes) → IsKey k → Leads k
IsKey-Leads [] h = tt
IsKey-Leads (c ∷ k) h = h.0

load_pair-clean :
    (seen : Config) (e : Entry)
    → IsClean e
    → find seen e.key ≡ none
    → length seen < max_entries
    → load_pair seen e.key e.value ≡ some (seen ++ e ∷ [])
unfolding load_pair put append_entry
load_pair-clean seen e h fresh room =
    let space : leb max_entries (length seen) ≡ false = ground arith in
    let space' : ltb (length seen) max_entries ≡ true = ground arith in
    rw (is_empty-key e.key h.key_first, space, fresh, space')
      (rw (
        take_all 63 e.key (omega (arith, h.key_fits)),
        take_all 127 e.value (omega (arith, h.value_fits)),
      ))

load_line-clean :
    (seen : Config) (e : Entry)
    → IsClean e
    → find seen e.key ≡ none
    → length seen < max_entries
    → load_line seen (line_of e ++ 10 ∷ []) ≡ some (seen ++ e ∷ [])
unfolding load_line
load_line-clean seen e h fresh room =
    rw
      (
        trim_line e.key e.value h.key_first h.value_end,
        is_comment-key e.key (b'=' ∷ e.value) h.key_first,
        split_at_eq-append e.key e.value h.key_bytes,
        trim_clean e.key (IsKey-Leads e.key h.key_first) h.key_end,
        trim_clean e.value h.value_first h.value_end,
      )
      (load_pair-clean seen e h fresh room)

length-line : (e : Entry) → IsClean e → length (line_of e) < line_room
length-line e h = omega (arith, length-append e.key (b'=' ∷ e.value), h.key_fits, h.value_fits)

All-line :
    (k v : Bytes)
    → All (λ c. (c ≢ b'=') × (c ≢ 10)) k
    → All (λ c. c ≢ 10) v
    → All (λ c. c ≢ 10) (k ++ b'=' ∷ v)
All-line [] v h g = (omega arith, g)
All-line (c ∷ k) v h g = (h.0.1, All-line k v h.1 g)

fgets_lines-save :
    (e : Entry) (rest : Config)
    → IsClean e
    → fgets_lines line_room [] (save (e ∷ rest))
      ≡ (line_of e ++ 10 ∷ []) ∷ fgets_lines line_room [] (save rest)
unfolding save
fgets_lines-save e rest h = rw (← append_assoc e.key (b'=' ∷ e.value) (10 ∷ save rest)) (
    fgets_lines-line (line_of e) [] (save rest) line_room
      (All-line e.key e.value h.key_bytes h.value_bytes) (length-line e h))

load_lines-cons :
    (cfg : Config) (line : Bytes) (lines : List Bytes) {cfg' : Config}
    → load_line cfg line ≡ some cfg'
    → load_lines cfg (line ∷ lines) ≡ load_lines cfg' lines
unfolding load_lines
load_lines-cons cfg line lines h = rw (h, load_lines)

load_lines-save :
    (rest seen : Config)
    → All IsClean rest
    → Fresh seen rest
    → length seen + length rest ≤ max_entries
    → load_lines seen (fgets_lines line_room [] (save rest)) ≡ seen ++ rest
unfolding load_lines
load_lines-save [] seen h fresh room = unfold save fgets_lines in sym (append-nil seen)
load_lines-save (e ∷ rest) seen h fresh room = rw (fgets_lines-save e rest h.0) (
    load_lines-cons seen _ _ (load_line-clean seen e h.0 fresh.0 (omega arith))
    ∙ load_lines-save rest (seen ++ e ∷ []) h.1 fresh.1 (omega (arith, length-append seen (e ∷ [])))
    ∙ append_assoc seen (e ∷ []) rest)

-- Loading a file that `config_save` wrote gives back the very table that was saved, and 0, for a
-- table of at most 64 entries with different keys, each entry being one that a line can hold.
pub load-save :
    (old cfg : Config)
    → All IsClean cfg
    → Fresh [] cfg
    → length cfg ≤ max_entries
    → load old (some (save cfg)) ≡ (cfg, pos 0)
unfolding load
load-save old cfg h fresh room = rw (load_lines-save cfg [] h fresh (omega arith))
