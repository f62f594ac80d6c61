-- ===== src/Dns/Query.antt =====
-- `encode_qname` and the query of src/net/net_dns.c.
use mathlib.Core.Option
use embedded_network_monitor.Prelude.{
  ℕ, ◌+◌, ◌-◌, ◌*◌, ◌/◌, ◌%◌, Bool, ◌&&◌, ◌||◌, Option, none, some, List, [], ◌∷◌, ◌++◌, ltb, leb,
  ◌==◌, if◌then◌else◌, Bytes, length, get_or,
}

abbrev pub dot : ℕ
dot = 46

-- the labels that the loop finds: what stands before each dot, and what is left at the end
unfoldable pub labels : Bytes → Bytes → List Bytes
labels got [] = if length got == 0 then [] else got ∷ []
labels got (c ∷ s) =
    let next = got ∷ labels [] s in
    let longer = labels (got ++ c ∷ []) s in if c == dot then next else longer

-- The labels from position `pos` on, in a buffer of `buflen` bytes; `none` for -1.
unfoldable pub encode_labels : ℕ → ℕ → List Bytes → Option Bytes
encode_labels buflen pos [] = if leb buflen (pos + 1) then none else some (0 ∷ [])
encode_labels buflen pos (l ∷ ls) =
    let rest = encode_labels buflen (pos + 1 + length l) ls in
    if length l == 0 || ltb 63 (length l) || leb buflen (pos + 1 + length l)
    then none
    else Option.map (λ bs. length l ∷ (l ++ bs)) rest

unfoldable pub encode_qname : ℕ → Bytes → Option Bytes
encode_qname buflen hostname = encode_labels buflen 0 (labels [] hostname)

abbrev pub max_pkt : ℕ
max_pkt = 512

-- `dns_header_t` of a query, in network order: the identifier, the flag for recursion, one question
abbrev pub query_header : ℕ → Bytes
query_header txn_id = txn_id / 256 % 256 ∷ txn_id % 256 ∷ 1 ∷ 0 ∷ 0 ∷ 1 ∷ 0 ∷ 0 ∷ 0 ∷ 0 ∷ 0 ∷ 0 ∷ []

-- the packet that `net_dns_probe` sends: the question is for an address of class IN
unfoldable pub query : ℕ → Bytes → Option Bytes
unfolding encode_qname
query txn_id hostname =
    Option.map (λ name. query_header txn_id ++ (name ++ 0 ∷ 1 ∷ 0 ∷ 1 ∷ []))
      (encode_qname (max_pkt - length (query_header txn_id) - 4) hostname)

-- a reply is taken for the answer if it has a header with the identifier
unfoldable pub is_answer : ℕ → Bytes → Bool
is_answer txn_id resp = leb 12 (length resp) && get_or resp 0 0 * 256 + get_or resp 1 0 == txn_id
