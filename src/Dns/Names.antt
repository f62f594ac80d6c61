-- ===== src/Dns/Names.antt =====
-- The name in a query against the format of RFC 1035: labels with their lengths, and a zero.
use embedded_network_monitor.Prelude.{
  ℕ, zero, suc, ◌+◌, ◌-◌, ◌/◌, ◌%◌, ◌^◌, ◌≤◌, ◌<◌, ◌≡◌, refl, sym, ap, ◌∙◌, ◌≢◌, ◌↔◌, inl, inr,
  true, false, ◌||◌, Option, none, some, List, [], ◌∷◌, ◌++◌, append-nil, append_assoc, arith, ltb,
  leb, ◌==◌, if◌then◌else◌, Bool-cases, Option-cases, Bytes, length, get_or, All, length-append,
}
use mathlib.Core.Option
use mathlib.Core.Path.{subst}
use embedded_network_monitor.Dns.Query.{
  dot, labels, encode_labels, encode_qname, query, is_answer, max_pkt, query_header,
}

-- What a server reads: `n` bytes of the label that has begun with `got`, then the other labels.
unfoldable pub read_labels : ℕ → Bytes → Bytes → Option (List Bytes)
read_labels n got [] = none
read_labels zero got (c ∷ bs) = if c == 0 then some [] else read_labels c [] bs
read_labels (suc zero) got (c ∷ bs) = Option.map (λ ls. (got ++ c ∷ []) ∷ ls) (read_labels 0 [] bs)
read_labels (suc (suc n)) got (c ∷ bs) = read_labels (suc n) (got ++ c ∷ []) bs

-- a host name with these labels
unfoldable pub join : List Bytes → Bytes
join [] = []
join (l ∷ []) = l
join (l ∷ k ∷ ls) = l ++ dot ∷ join (k ∷ ls)

pub record IsLabel (l : Bytes) : Type 0 where
  pub not_empty : 1 ≤ length l
  pub fits : length l ≤ 63
  pub no_dot : All (λ c. c ≢ dot) l

labels-end :
    (got l : Bytes)
    → All (λ c. c ≢ dot) l
    → 1 ≤ length got + length l
    → labels got l ≡ (got ++ l) ∷ []
unfolding labels
labels-end got [] h ne =
    let some_byte : (length got == 0) ≡ false = ground arith in
    rw some_byte (ap (λ g. g ∷ []) (sym (append-nil got)))
labels-end got (c ∷ l) h ne =
    let other : (c == dot) ≡ false = ground (arith, h.0) in
    rw other (
      labels-end (got ++ c ∷ []) l h.1 (omega (arith, length-append got (c ∷ [])))
      ∙ ap (λ g. g ∷ []) (append_assoc got (c ∷ []) l))

labels-dot :
    (got l s : Bytes) → All (λ c. c ≢ dot) l → labels got (l ++ dot ∷ s) ≡ (got ++ l) ∷ labels [] s
unfolding labels
labels-dot got [] s h = ap (λ g. g ∷ labels [] s) (sym (append-nil got))
labels-dot got (c ∷ l) s h =
    let other : (c == dot) ≡ false = ground (arith, h.0) in
    rw other
      (labels-dot (got ++ c ∷ []) l s h.1 ∙ ap (λ g. g ∷ labels [] s) (append_assoc got (c ∷ []) l))

read_labels-label :
    (n : ℕ) (got l rest : Bytes)
    → length l ≡ suc n
    → read_labels (suc n) got (l ++ rest)
      ≡ Option.map (λ ls. (got ++ l) ∷ ls) (read_labels 0 [] rest)
unfolding read_labels
read_labels-label n got [] rest e = absurd (omega arith)
read_labels-label zero got (c ∷ []) rest e = refl
read_labels-label zero got (c ∷ d ∷ l) rest e = absurd (omega arith)
read_labels-label (suc n) got (c ∷ l) rest e =
    read_labels-label n (got ++ c ∷ []) l rest (omega arith)
    ∙ ap (λ b. Option.map (λ ls. b ∷ ls) (read_labels 0 [] rest)) (append_assoc got (c ∷ []) l)

-- the same behind the length byte
read_labels-cons :
    (l rest : Bytes)
    → 1 ≤ length l
    → read_labels 0 [] (length l ∷ (l ++ rest)) ≡ Option.map (λ ls. l ∷ ls) (read_labels 0 [] rest)
unfolding read_labels
read_labels-cons [] rest h = absurd (omega arith)
read_labels-cons (c ∷ l) rest h =
    let more : (suc (length l) == 0) ≡ false = ground arith in
    rw more (read_labels-label (length l) [] (c ∷ l) rest refl)

-- the bytes of the labels
unfoldable wire_size : List Bytes → ℕ
wire_size [] = 1
wire_size (l ∷ ls) = 1 + length l + wire_size ls

encode_labels_lem :
    (buflen pos : ℕ) (ls : List Bytes)
    → All IsLabel ls
    → pos + wire_size ls < buflen
    → (bs : Bytes) × (encode_labels buflen pos ls ≡ some bs)
      × (read_labels 0 [] bs ≡ some ls)
      × (length bs ≡ wire_size ls)
unfolding encode_labels read_labels wire_size
encode_labels_lem buflen pos [] h room =
    let fits : leb buflen (pos + 1) ≡ false = ground arith in rw fits (0 ∷ [], refl, refl, refl)
encode_labels_lem buflen pos (l ∷ ls) h room =
    let (bs, made, read, size) =
      encode_labels_lem buflen (pos + 1 + length l) ls h.1 (omega arith) in
    let fits : (length l == 0 || ltb 63 (length l) || leb buflen (pos + 1 + length l)) ≡ false =
      ground (arith, h.0.not_empty, h.0.fits) in
    (
      length l ∷ (l ++ bs),
      rw (fits, made) refl,
      read_labels-cons l bs h.0.not_empty ∙ ap (Option.map (λ ks. l ∷ ks)) read,
      omega (arith, length-append l bs, size),
    )

labels-join : (ls : List Bytes) → 1 ≤ length ls → All IsLabel ls → labels [] (join ls) ≡ ls
unfolding join
labels-join [] ne h = absurd (omega arith)
labels-join (l ∷ []) ne h = labels-end [] l h.0.no_dot (omega (arith, h.0.not_empty))
labels-join (l ∷ k ∷ ls) ne h =
    labels-dot [] l (join (k ∷ ls)) h.0.no_dot
    ∙ ap (λ ks. l ∷ ks) (labels-join (k ∷ ls) (omega arith) h.1)

wire_size-join : (ls : List Bytes) → 1 ≤ length ls → wire_size ls ≡ length (join ls) + 2
unfolding join wire_size
wire_size-join [] ne = absurd (omega arith)
wire_size-join (l ∷ []) ne = omega arith
wire_size-join (l ∷ k ∷ ls) ne =
    omega (arith, wire_size-join (k ∷ ls) (omega arith), length-append l (dot ∷ join (k ∷ ls)))

-- A host name whose labels have 1 to 63 bytes and no dot is encoded if the buffer has room, with two
-- bytes more than it has, and a server that reads the encoding gets these labels.
pub encode_qname-join :
    (buflen : ℕ) (ls : List Bytes)
    → 1 ≤ length ls
    → All IsLabel ls
    → length (join ls) + 2 < buflen
    → (bs : Bytes) × (encode_qname buflen (join ls) ≡ some bs)
      × (read_labels 0 [] bs ≡ some ls)
      × (length bs ≡ length (join ls) + 2)
unfolding encode_qname
encode_qname-join buflen ls ne h room =
    let size = wire_size-join ls ne in
    let (bs, made, read, len) = encode_labels_lem buflen 0 ls h (omega (arith, size)) in
    (bs, ap (encode_labels buflen 0) (labels-join ls ne h) ∙ made, read, len ∙ size)

encode_labels-size :
    (buflen pos : ℕ) (ls : List Bytes) (bs : Bytes)
    → encode_labels buflen pos ls ≡ some bs
    → pos + length bs < buflen
unfolding encode_labels
encode_labels-size buflen pos [] bs made = elim (Bool-cases (leb buflen (pos + 1))) [
  | inl e ↦ absurd (ground arith)
  | inr e ↦
      let zero_only : 0 ∷ [] ≡ bs = ground arith in
      let room : pos + 1 < buflen = ground (arith, e) in omega (arith, ap length zero_only, room)
]
encode_labels-size buflen pos (l ∷ ls) bs made =
    elim (Option-cases (encode_labels buflen (pos + 1 + length l) ls)) [
      | inl e ↦ absurd (ground arith)
      | inr (ks, e) ↦
          let whole : length l ∷ (l ++ ks) ≡ bs = ground arith in
          omega (
            arith,
            ap length whole,
            length-append l ks,
            encode_labels-size buflen (pos + 1 + length l) ls ks e,
          )
    ]

-- Whatever the host name, an encoding stays inside the buffer.
encode_qname-size :
    (buflen : ℕ) (hostname bs : Bytes) → encode_qname buflen hostname ≡ some bs → length bs < buflen
unfolding encode_qname
encode_qname-size buflen hostname bs made =
    omega (arith, encode_labels-size buflen 0 (labels [] hostname) bs made)

is_answer_iff :
    (txn_id b₀ b₁ : ℕ) (rest : Bytes)
    → txn_id < 2 ^ 16
    → b₀ < 256
    → b₁ < 256
    → (is_answer txn_id (b₀ ∷ b₁ ∷ rest) ≡ true)
      ↔ ((b₀ ≡ txn_id / 256 % 256) × (b₁ ≡ txn_id % 256) × (10 ≤ length rest))
unfolding is_answer
is_answer_iff txn_id b₀ b₁ rest small h₀ h₁ =
    (λ ok. ground (arith, ok), λ (e₀, e₁, long). ground arith)

-- Whatever the host name, the query stays inside the packet buffer; and a reply is taken for its
-- answer exactly when it begins with the two bytes of the identifier that the query begins with and
-- has a whole header.
pub query_lem :
    (txn_id : ℕ) (hostname pkt : Bytes) (b₀ b₁ : ℕ) (rest : Bytes)
    → txn_id < 2 ^ 16
    → b₀ < 256
    → b₁ < 256
    → query txn_id hostname ≡ some pkt
    → (length pkt ≤ max_pkt)
      × ((is_answer txn_id (b₀ ∷ b₁ ∷ rest) ≡ true)
          ↔ ((b₀ ≡ get_or pkt 0 0) × (b₁ ≡ get_or pkt 1 0) × (10 ≤ length rest)))
unfolding query
query_lem txn_id hostname pkt b₀ b₁ rest small h₀ h₁ made =
    elim (Option-cases (encode_qname (max_pkt - 12 - 4) hostname)) [
      | inl e ↦ absurd (ground arith)
      | inr (name, e) ↦
          let whole : query_header txn_id ++ (name ++ 0 ∷ 1 ∷ 0 ∷ 1 ∷ []) ≡ pkt = ground arith in
          let size = encode_qname-size (max_pkt - 12 - 4) hostname name e in
          (
            omega (arith, ap length whole, size, length-append name (0 ∷ 1 ∷ 0 ∷ 1 ∷ [])),
            subst
                (λ p.
                  (is_answer txn_id (b₀ ∷ b₁ ∷ rest) ≡ true)
                  ↔ ((b₀ ≡ get_or p 0 0) × (b₁ ≡ get_or p 1 0) × (10 ≤ length rest)))
                whole (is_answer_iff txn_id b₀ b₁ rest small h₀ h₁),
          )
    ]
