-- ===== src/Alerts/Ignore.antt =====
-- The list of ignored interfaces that `alerts_init` parses, and `is_ignored_iface`.
use embedded_network_monitor.Prelude.{
  ℕ, zero, suc, ◌<◌, ◌≤◌, ◌≡◌, refl, Bool, false, ◌&&◌, ◌||◌, inl, inr, List, [], ◌∷◌, arith, Bytes,
  str_eq, ◌==◌, if◌then◌else◌, length, take, length-take, All, Bool-cases, ◌++◌, ◌-◌,
}
use embedded_network_monitor.NetState.{iface_name_max}
use embedded_network_monitor.Config.File.{is_empty}

abbrev pub max_ignore_ifaces : ℕ
max_ignore_ifaces = 8

-- `is_ignored_iface`, the loop over `g_ignore_ifaces[0 .. g_ignore_count)`
unfoldable pub is_ignored_iface : List Bytes → Bytes → Bool
is_ignored_iface [] name = false
is_ignored_iface (i ∷ ignore) name = str_eq i name || is_ignored_iface ignore name

-- the tokens of `strtok (buf, ",")`: runs of bytes other than a comma, never empty. `tok` has begun.
unfoldable pub tokens : Bytes → Bytes → List Bytes
tokens tok [] = if is_empty tok then [] else tok ∷ []
tokens tok (c ∷ s) =
    let next = tokens [] s in
    let longer = tokens (tok ++ c ∷ []) s in
    if c == b',' then if is_empty tok then next else tok ∷ next else longer

-- `while (*tok == ' ') tok++`
unfoldable pub skip_blanks : Bytes → Bytes
skip_blanks [] = []
skip_blanks (c ∷ s) = if c == 32 then skip_blanks s else c ∷ s

-- `while (end > tok && *end == ' ')`: never as far as the first byte, which is no blank
unfoldable pub drop_blanks : Bytes → Bytes
drop_blanks [] = []
drop_blanks (c ∷ s) = let r = drop_blanks s in if c == 32 && is_empty r then [] else c ∷ r

unfoldable pub trim_blanks : Bytes → Bytes
unfolding skip_blanks drop_blanks
trim_blanks tok = drop_blanks (skip_blanks tok)

-- the `while` loop, with `room` entries of the array left
unfoldable pub fill_ignore : ℕ → List Bytes → List Bytes
fill_ignore room [] = []
fill_ignore zero (tok ∷ toks) = []
fill_ignore (suc room) (tok ∷ toks) =
    let same = fill_ignore (suc room) toks in
    let less = fill_ignore room toks in
    let t = trim_blanks tok in if is_empty t then same else take (iface_name_max - 1) t ∷ less

-- from the value of `alert_ignore_ifaces`
unfoldable pub parse_ignore : Bytes → List Bytes
unfolding fill_ignore tokens trim_blanks
parse_ignore ignore = fill_ignore max_ignore_ifaces (tokens [] (take 255 ignore))

abbrev pub IsName : Bytes → Type 0
IsName t = (0 < length t) × (length t < iface_name_max)

IsName-of_token : (t : Bytes) → is_empty t ≡ false → IsName (take (iface_name_max - 1) t)
IsName-of_token [] n = cc
IsName-of_token (c ∷ t) n = omega (arith, length-take 14 t)

fill_ignore-All : (room : ℕ) (toks : List Bytes) → All IsName (fill_ignore room toks)
unfolding fill_ignore
fill_ignore-All room [] = tt
fill_ignore-All zero (tok ∷ toks) = tt
fill_ignore-All (suc room) (tok ∷ toks) = elim (Bool-cases (is_empty (trim_blanks tok))) [
  | inl e ↦ rw e (fill_ignore-All (suc room) toks)
  | inr n ↦ rw n (IsName-of_token (trim_blanks tok) n, fill_ignore-All room toks)
]

length-fill_ignore : (room : ℕ) (toks : List Bytes) → length (fill_ignore room toks) ≤ room
unfolding fill_ignore
length-fill_ignore room [] = omega arith
length-fill_ignore zero (tok ∷ toks) = omega arith
length-fill_ignore (suc room) (tok ∷ toks) =
    ground (arith, length-fill_ignore room toks, length-fill_ignore (suc room) toks)

-- Whatever the configuration says, at most 8 interfaces are ignored, and each name has between 1 and
-- 15 bytes, so that it fits its array.
pub parse_ignore_lem :
    (ignore : Bytes)
    → (length (parse_ignore ignore) ≤ max_ignore_ifaces) × All IsName (parse_ignore ignore)
unfolding parse_ignore
parse_ignore_lem ignore = (
  length-fill_ignore max_ignore_ifaces (tokens [] (take 255 ignore)),
  fill_ignore-All max_ignore_ifaces (tokens [] (take 255 ignore)),
)

parse_ignore_run :
    parse_ignore (b' ' ∷ b'l' ∷ b'o' ∷ b' ' ∷ b',' ∷ b',' ∷ b' ' ∷ b',' ∷ b'u' ∷ [])
    ≡ (b'l' ∷ b'o' ∷ []) ∷ (b'u' ∷ []) ∷ []
unfolding parse_ignore
parse_ignore_run = refl
