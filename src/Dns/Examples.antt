-- ===== src/Dns/Examples.antt =====
-- Instances of the theorems on queries.
use embedded_network_monitor.Prelude.{
  ◌+◌, ◌≤◌, ◌≡◌, refl, ◌↔◌, true, some, List, [], ◌∷◌, arith, Bytes, codes, length, get_or,
  replicate, All,
}
use embedded_network_monitor.Dns.Query.{
  labels, encode_labels, encode_qname, query, max_pkt, is_answer,
}
use embedded_network_monitor.Dns.Names.{read_labels, join, IsLabel, encode_qname-join, query_lem}

abbrev names : List Bytes
names = codes "google" ∷ codes "com" ∷ []

names-IsLabel : All IsLabel names
names-IsLabel = (
  record { not_empty = omega arith; fits = omega arith; no_dot = omega arith },
  (record { not_empty = omega arith; fits = omega arith; no_dot = omega arith }, tt),
)

encode_qname-join_example :
    (bs : Bytes) × (encode_qname 496 (join names) ≡ some bs)
    × (read_labels 0 [] bs ≡ some names)
    × (length bs ≡ length (join names) + 2)
unfolding join
encode_qname-join_example = encode_qname-join 496 names (omega arith) names-IsLabel (omega arith)

abbrev zeros : Bytes
zeros = replicate 10 0

abbrev packet : Bytes
packet =
    18 ∷ 52 ∷ 1 ∷ 0 ∷ 0 ∷ 1 ∷ 0 ∷ 0 ∷ 0 ∷ 0 ∷ 0 ∷ 0 ∷ 2 ∷ 110 ∷ 115 ∷ 2 ∷ 105 ∷ 111 ∷ 0 ∷ 0 ∷ 1 ∷ 0
    ∷ 1 ∷ []

packet-made : query 0x1234 (codes "ns.io") ≡ some packet
unfolding query encode_qname encode_labels labels
packet-made = refl

query_lem_run :
    (length packet ≤ max_pkt)
    × ((is_answer 0x1234 (18 ∷ 52 ∷ zeros) ≡ true)
        ↔ ((18 ≡ get_or packet 0 0) × (52 ≡ get_or packet 1 0) × (10 ≤ length zeros)))
query_lem_run =
    query_lem 0x1234 (codes "ns.io") packet 18 52 zeros (omega arith) (omega arith) (omega arith)
      packet-made
