-- ===== src/Tables/Files.antt =====
-- A file of lines: what `fgets` gives of it, and what a reader keeps.
use embedded_network_monitor.Prelude.{
  ℕ, zero, suc, ◌-◌, ◌<◌, ◌≡◌, refl, sym, ap, ◌∙◌, ◌≢◌, inl, inr, Bool, true, false, not, ◌&&◌,
  ◌||◌, Option, none, some, List, [], ◌∷◌, ◌++◌, map, append-nil, append_assoc, arith, ltb, leb,
  ◌==◌, Option-cases, Bytes, length, take, All,
}
use embedded_network_monitor.Collector.Proc.{fgets_from}
use embedded_network_monitor.Tables.Readers.{keep, read_lines}

-- a line that fits the buffer, without its newline
abbrev pub IsLine : ℕ → Bytes → Type 0
IsLine room line = All (λ c. c ≢ 10) line × (length line < room)

abbrev pub no_newline : Bytes → Bool
no_newline [] = true
no_newline (c ∷ s) = not (c == 10) && no_newline s

no_newline-All : (s : Bytes) → no_newline s ≡ true → All (λ c. c ≢ 10) s
no_newline-All [] h = tt
no_newline-All (c ∷ s) h =
    let here : c ≢ 10 = ground arith in
    let rest : no_newline s ≡ true = ground arith in (here, no_newline-All s rest)

-- A test for it.
pub IsLine-test :
    (room : ℕ) (line : Bytes)
    → (no_newline line && ltb (length line) room) ≡ true
    → IsLine room line
IsLine-test room line h =
    let lacks : no_newline line ≡ true = ground arith in (no_newline-All line lacks, ground arith)

abbrev pub file_of : List Bytes → Bytes
file_of [] = []
file_of (line ∷ lines) = line ++ 10 ∷ file_of lines

abbrev pub with_newlines : List Bytes → List Bytes
with_newlines [] = []
with_newlines (line ∷ lines) = (line ++ 10 ∷ []) ∷ with_newlines lines

fgets_from-line :
    (size : ℕ) (line got s : Bytes) (room : ℕ)
    → IsLine room line
    → fgets_from size room got (line ++ 10 ∷ s)
      ≡ (got ++ line ++ 10 ∷ []) ∷ fgets_from size (size - 1) [] s
unfolding fgets_from
fgets_from-line size [] got s room h = rw append-nil refl
fgets_from-line size (c ∷ line) got s zero h = absurd (omega (arith, h.1))
fgets_from-line size (c ∷ line) got s (suc room) h =
    let more : (c == 10 || leb (suc room) 1) ≡ false = ground (arith, h.0.0, h.1) in
    let less : suc room - 1 ≡ room = omega arith in
    rw (more, less)
      (fgets_from-line size line (got ++ c ∷ []) s room (h.0.1, omega (arith, h.1))
        ∙ ap (λ l. (l ++ 10 ∷ []) ∷ fgets_from size (size - 1) [] s)
            (append_assoc got (c ∷ []) line))

-- `fgets` gives the lines of a file, if they fit the buffer.
pub fgets_from-file_of :
    (size : ℕ) (lines : List Bytes)
    → All (IsLine (size - 1)) lines
    → fgets_from size (size - 1) [] (file_of lines) ≡ with_newlines lines
fgets_from-file_of size [] h = unfold fgets_from in refl
fgets_from-file_of size (line ∷ lines) h =
    fgets_from-line size line [] (file_of lines) (size - 1) h.0
    ∙ ap (λ l. (line ++ 10 ∷ []) ∷ l) (fgets_from-file_of size lines h.1)

keep-some {ℓ} :
    {A : Type ℓ} (o : Option A) {a : A} (same less : List A)
    → o ≡ some a
    → keep o same less ≡ a ∷ less
unfolding keep
keep-some o same less h = rw h refl

keep-none {ℓ} :
    {A : Type ℓ} (o : Option A) (same less : List A) → o ≡ none → keep o same less ≡ same
unfolding keep
keep-none o same less h = rw h refl

-- the entries that are there
abbrev pub somes {ℓ} : {A : Type ℓ} → List (Option A) → List A
somes [] = []
somes (none ∷ xs) = somes xs
somes (some a ∷ xs) = a ∷ somes xs

somes-none {ℓ} :
    {A : Type ℓ} (o : Option A) (xs : List (Option A)) → o ≡ none → somes (o ∷ xs) ≡ somes xs
somes-none o xs h = rw h refl

somes-some {ℓ} :
    {A : Type ℓ} (o : Option A) {a : A} (xs : List (Option A))
    → o ≡ some a
    → somes (o ∷ xs) ≡ a ∷ somes xs
somes-some o xs h = rw h refl

module _ {ℓ κ} {A : Type ℓ} {B : Type κ} where
  -- Where every line is that of an entry, the reader keeps the entries that fit the array.
  pub read_lines-map :
      (parse : Bytes → Option A) (print : B → Bytes) (entry : B → A) (room : ℕ) (entries : List B)
      → All (λ b. parse (print b ++ 10 ∷ []) ≡ some (entry b)) entries
      → read_lines parse room (with_newlines (map print entries)) ≡ take room (map entry entries)
  unfolding read_lines
  read_lines-map parse print entry zero [] h = refl
  read_lines-map parse print entry (suc room) [] h = refl
  read_lines-map parse print entry zero (b ∷ entries) h = refl
  read_lines-map parse print entry (suc room) (b ∷ entries) h =
      keep-some (parse (print b ++ 10 ∷ [])) _ _ h.0
      ∙ ap (λ l. entry b ∷ l) (read_lines-map parse print entry room entries h.1)

  -- Where every line is known to give an entry or none, the reader keeps the entries that fit.
  pub read_lines-somes :
      (parse : Bytes → Option A) (print : B → Bytes) (entry : B → Option A) (room : ℕ)
      (entries : List B)
      → All (λ b. parse (print b ++ 10 ∷ []) ≡ entry b) entries
      → read_lines parse room (with_newlines (map print entries))
        ≡ take room (somes (map entry entries))
  unfolding read_lines
  read_lines-somes parse print entry zero [] h = refl
  read_lines-somes parse print entry (suc room) [] h = refl
  read_lines-somes parse print entry zero (b ∷ entries) h = refl
  read_lines-somes parse print entry (suc room) (b ∷ entries) h = elim (Option-cases (entry b)) [
    | inl e ↦
        keep-none (parse (print b ++ 10 ∷ [])) _ _ (h.0 ∙ e)
        ∙ read_lines-somes parse print entry (suc room) entries h.1
        ∙ ap (take (suc room)) (sym (somes-none (entry b) (map entry entries) e))
    | inr (a, e) ↦
        keep-some (parse (print b ++ 10 ∷ [])) _ _ (h.0 ∙ e)
        ∙ ap (λ l. a ∷ l) (read_lines-somes parse print entry room entries h.1)
        ∙ ap (take (suc room)) (sym (somes-some (entry b) (map entry entries) e))
  ]
