-- ===== src/Satellite/Serial.antt =====
-- `serial_write` of satellite/host/src/sat_serial.c, with the results of `write` in their order.
use embedded_network_monitor.Prelude.{
  ℕ, zero, suc, ◌≤◌, ◌≡◌, refl, ap, ◌∙◌, Option, none, some, List, [], ◌∷◌, ◌++◌, append-nil,
  append_assoc, arith, Bytes, length, take, drop, length-drop,
}

-- one call of `write`: how many bytes it took, an interruption by a signal, or another error
pub data Outcome : Type 0 where
  took : ℕ → Outcome
  interrupted failed : Outcome

-- the bytes that went out, and the result: -1 is `none`
pub record Written : Type 0 where
  pub sent : Bytes
  pub result : Option ℕ

-- `left` is what has not been written yet and `sent` what has. The kernel takes no more than it is given.
-- Outcomes that run out stand for a call that does not return.
unfoldable pub serial_write_from : List Outcome → Bytes → Bytes → Written
serial_write_from outcomes sent [] = record { sent = sent; result = some (length sent) }
serial_write_from [] sent (c ∷ left) = record { sent = sent; result = none }
serial_write_from (took n ∷ outcomes) sent (c ∷ left) =
    serial_write_from outcomes (sent ++ take n (c ∷ left)) (drop n (c ∷ left))
serial_write_from (interrupted ∷ outcomes) sent (c ∷ left) =
    serial_write_from outcomes sent (c ∷ left)
serial_write_from (failed ∷ outcomes) sent (c ∷ left) = record { sent = sent; result = none }

unfoldable pub serial_write : List Outcome → Bytes → Written
unfolding serial_write_from
serial_write outcomes data_bytes = serial_write_from outcomes [] data_bytes

-- how many of the outcomes take at least a byte
abbrev pub progress : List Outcome → ℕ
progress [] = 0
progress (took zero ∷ outcomes) = progress outcomes
progress (took (suc n) ∷ outcomes) = suc (progress outcomes)
progress (interrupted ∷ outcomes) = progress outcomes
progress (failed ∷ outcomes) = progress outcomes

abbrev pub NeverFails : List Outcome → Type 0
NeverFails [] = Unit
NeverFails (took n ∷ outcomes) = NeverFails outcomes
NeverFails (interrupted ∷ outcomes) = NeverFails outcomes
NeverFails (failed ∷ outcomes) = ⊥

take-drop : {A : Type 0} (n : ℕ) (xs : List A) → take n xs ++ drop n xs ≡ xs
take-drop zero xs = refl
take-drop (suc n) [] = refl
take-drop (suc n) (x ∷ xs) = ap (λ r. x ∷ r) (take-drop n xs)

write_run :
    (outcomes : List Outcome) (sent left : Bytes)
    → NeverFails outcomes
    → length left ≤ progress outcomes
    → serial_write_from outcomes sent left
      ≡ record { sent = sent ++ left; result = some (length (sent ++ left)) }
unfolding serial_write_from
write_run outcomes sent [] h p = rw append-nil refl
write_run [] sent (c ∷ left) h p = absurd (omega arith)
write_run (took zero ∷ outcomes) sent (c ∷ left) h p =
    rw append-nil (write_run outcomes sent (c ∷ left) h p)
write_run (took (suc n) ∷ outcomes) sent (c ∷ left) h p =
    let all : (sent ++ (c ∷ take n left)) ++ drop n left ≡ sent ++ (c ∷ left) =
      append_assoc sent (c ∷ take n left) (drop n left)
      ∙ ap (λ r. sent ++ (c ∷ r)) (take-drop n left) in
    write_run outcomes (sent ++ (c ∷ take n left)) (drop n left) h
      (omega (arith, length-drop n left))
    ∙ rw all refl
write_run (interrupted ∷ outcomes) sent (c ∷ left) h p = write_run outcomes sent (c ∷ left) h p
write_run (failed ∷ outcomes) sent (c ∷ left) h p = absurd h

-- Whatever the sizes in which the kernel takes the data, and however often a signal interrupts, all of
-- it goes out in order and its length is the result, if no call fails and as many calls take
-- something as there are bytes.
pub serial_write_lem :
    (outcomes : List Outcome) (data_bytes : Bytes)
    → NeverFails outcomes
    → length data_bytes ≤ progress outcomes
    → serial_write outcomes data_bytes
      ≡ record { sent = data_bytes; result = some (length data_bytes) }
unfolding serial_write
serial_write_lem outcomes data_bytes h p = write_run outcomes [] data_bytes h p
