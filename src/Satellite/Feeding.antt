-- ===== src/Satellite/Feeding.antt =====
-- The feeder over a history of rounds, latest first.
use mathlib.Core.Path.{subst}
use embedded_network_monitor.Prelude.{
  ℕ, suc, ◌+◌, ◌%◌, ◌^◌, ◌≤◌, ◌≡◌, refl, sym, ◌↔◌, inl, inr, Bool, true, false, some, List, [], ◌∷◌,
  arith, leb, ◌==◌, if◌then◌else◌, Bool-cases, Bytes,
}
use embedded_network_monitor.Satellite.Protocol.{max_frame_size}
use embedded_network_monitor.Satellite.Encoder.{build_frame, heartbeat_frame}
use embedded_network_monitor.Satellite.Json.{Json}
use embedded_network_monitor.Satellite.EndToEnd.{status_made}
use embedded_network_monitor.Satellite.Feeder.{
  Feeder, Round, no_reply, bad_json, status, started, max_failures, send_status, send_heartbeat,
  round, gives_up,
}

module _ {J : Type 0} where
  -- the rounds in a row, from the latest, in which no status reached the serial line
  unfoldable pub bad_rounds : List (ℕ × Round J) → ℕ
  bad_rounds [] = 0
  bad_rounds ((now, no_reply) ∷ earlier) = suc (bad_rounds earlier)
  bad_rounds ((now, bad_json) ∷ earlier) = suc (bad_rounds earlier)
  bad_rounds ((now, status root ok) ∷ earlier) =
      let longer = suc (bad_rounds earlier) in if ok then 0 else longer

  -- the rounds without a reply
  unfoldable pub silent_rounds : List (ℕ × Round J) → ℕ
  silent_rounds [] = 0
  silent_rounds ((now, no_reply) ∷ earlier) = suc (silent_rounds earlier)
  silent_rounds ((now, bad_json) ∷ earlier) = silent_rounds earlier
  silent_rounds ((now, status root ok) ∷ earlier) = silent_rounds earlier

  -- the rounds that made a frame: each status, and every fifth round without a reply
  unfoldable pub framed_rounds : List (ℕ × Round J) → ℕ
  unfolding silent_rounds
  framed_rounds [] = 0
  framed_rounds ((now, no_reply) ∷ earlier) =
      let n = framed_rounds earlier in if (silent_rounds earlier + 1) % 5 == 0 then suc n else n
  framed_rounds ((now, bad_json) ∷ earlier) = framed_rounds earlier
  framed_rounds ((now, status root ok) ∷ earlier) = suc (framed_rounds earlier)

heartbeat_made :
    (now seq : ℕ)
    → (frame : Bytes) × (heartbeat_frame now max_frame_size seq ≡ (some frame, (seq + 1) % 2 ^ 16))
unfolding heartbeat_frame build_frame
heartbeat_made now seq = (_, refl)

round-fifth :
    (J : Type 0) ⦃j : Json J⦄ (now : ℕ) (s : Feeder)
    → leb 5 (s.heartbeats + 1) ≡ true
    → (round {J = J} now no_reply s).1
      ≡ record { seq = (s.seq + 1) % 2 ^ 16; failures = s.failures + 1; heartbeats = 0 }
unfolding round send_heartbeat
round-fifth J now s e = let (frame, made) = heartbeat_made now s.seq in rw (e, made) refl

round-silent :
    (J : Type 0) ⦃j : Json J⦄ (now : ℕ) (s : Feeder)
    → leb 5 (s.heartbeats + 1) ≡ false
    → (round {J = J} now no_reply s).1
      ≡ record s { failures = s.failures + 1; heartbeats = s.heartbeats + 1 }
unfolding round
round-silent J now s e = rw e refl

module _ {J : Type 0} ⦃j : Json J⦄ where
  unfoldable pub after : List (ℕ × Round J) → Feeder
  unfolding round
  after [] = started
  after ((now, r) ∷ earlier) = (round now r (after earlier)).1

  round-status :
      (root : J) (ok : Bool) (now : ℕ) (s : Feeder)
      → (round now (status root ok) s).1
        ≡ record s { seq = (s.seq + 1) % 2 ^ 16; failures = if ok then 0 else s.failures + 1 }
  unfolding round send_status
  round-status root ok now s = rw (status_made root now s.seq) refl

  record Tracks (s : Feeder) (h : List (ℕ × Round J)) : Type 0 where
    failures : s.failures ≡ bad_rounds h
    heartbeats : s.heartbeats ≡ silent_rounds h % 5
    seq : s.seq ≡ framed_rounds h % 2 ^ 16

  after-Tracks : (h : List (ℕ × Round J)) → Tracks (after h) h
  unfolding after round send_status send_heartbeat bad_rounds silent_rounds framed_rounds
  after-Tracks [] = record { failures = refl; heartbeats = refl; seq = refl }
  after-Tracks ((now, no_reply) ∷ earlier) =
      let s = after earlier in
      let ih = after-Tracks earlier in
      elim (Bool-cases (leb 5 (s.heartbeats + 1))) [
        | inl e ↦
            subst (λ t. Tracks t ((now, no_reply) ∷ earlier)) (sym (round-fifth J now s e))
              (record {
                failures = omega (arith, ih.failures);
                heartbeats = ground (arith, ih.heartbeats, e);
                seq = ground (arith, ih.heartbeats, ih.seq, e);
              })
        | inr e ↦
            subst (λ t. Tracks t ((now, no_reply) ∷ earlier)) (sym (round-silent J now s e))
              (record {
                failures = omega (arith, ih.failures);
                heartbeats = ground (arith, ih.heartbeats, e);
                seq = ground (arith, ih.heartbeats, ih.seq, e);
              })
      ]
  after-Tracks ((now, bad_json) ∷ earlier) =
      let ih = after-Tracks earlier in
      record { failures = omega (arith, ih.failures); heartbeats = ih.heartbeats; seq = ih.seq }
  after-Tracks ((now, status root ok) ∷ earlier) =
      let s = after earlier in
      let ih = after-Tracks earlier in
      subst (λ t. Tracks t ((now, status root ok) ∷ earlier)) (sym (round-status root ok now s))
        (record {
          failures = ground (arith, ih.failures);
          heartbeats = ih.heartbeats;
          seq = omega (arith, ih.seq);
        })

  -- Behind a round the feeder gives up exactly when this round completes ten or more in a row in
  -- which no status reached the serial line: no reply, no JSON, or a failed write.
  pub gives_up_iff :
      (history : List (ℕ × Round J))
      → (gives_up (after history) ≡ true) ↔ (max_failures ≤ bad_rounds history)
  unfolding gives_up
  gives_up_iff history = ground (arith, (after-Tracks history).failures)

  -- The sequence number for the next frame is the number of frames made so far, in 16 bits, where a
  -- frame is made of each status and at every fifth round without a reply, whatever comes between.
  pub seq-after :
      (history : List (ℕ × Round J)) → (after history).seq ≡ framed_rounds history % 2 ^ 16
  seq-after history = (after-Tracks history).seq
