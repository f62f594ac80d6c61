-- ===== src/Satellite/Feeder.antt =====
-- The loop of satellite/host/src/sat_feeder.c. What a round fetches, and whether the write to the
-- serial line succeeds, are its arguments.
use embedded_network_monitor.Prelude.{
  ℕ, ◌+◌, Bool, Option, none, some, List, [], ◌∷◌, leb, if◌then◌else◌, Bytes,
}
use embedded_network_monitor.Satellite.Protocol.{max_frame_size}
use embedded_network_monitor.Satellite.Encoder.{heartbeat_frame}
use embedded_network_monitor.Satellite.Json.{Json, json_to_frame}

abbrev pub max_failures : ℕ
max_failures = 10

-- `seq`, `consecutive_failures` and `heartbeat_counter`
pub record Feeder : Type 0 where
  pub seq : ℕ
  pub failures : ℕ
  pub heartbeats : ℕ

abbrev pub started : Feeder
started = record { seq = 0; failures = 0; heartbeats = 0 }

-- No reply; a reply that does not parse; a status, and whether its frame could be written.
pub data Round (J : Type 0) : Type 0 where
  no_reply bad_json : Round J
  status : J → Bool → Round J

-- a frame and the next sequence number, and whether the write succeeds: the frames that are handed
-- to the serial line, and the state
unfoldable pub send_status : Bool → Option Bytes × ℕ → Feeder → List Bytes × Feeder
send_status ok (none, seq) s = ([], record s { seq = seq })
send_status ok (some frame, seq) s =
    (frame ∷ [], record s { seq = seq; failures = if ok then 0 else s.failures + 1 })

unfoldable pub send_heartbeat : Option Bytes × ℕ → Feeder → List Bytes × Feeder
send_heartbeat (none, seq) s = ([], record s { seq = seq; heartbeats = 0 })
send_heartbeat (some frame, seq) s = (frame ∷ [], record s { seq = seq; heartbeats = 0 })

module _ {J : Type 0} ⦃j : Json J⦄ where
  -- one round of the loop at the wall clock `now`
  unfoldable pub round : ℕ → Round J → Feeder → List Bytes × Feeder
  unfolding send_status send_heartbeat
  round now no_reply s =
      let t = record s { failures = s.failures + 1; heartbeats = s.heartbeats + 1 } in
      if leb 5 t.heartbeats
      then send_heartbeat (heartbeat_frame now max_frame_size t.seq) t
      else ([], t)
  round now bad_json s = ([], record s { failures = s.failures + 1 })
  round now (status root ok) s = send_status ok (json_to_frame root now max_frame_size s.seq) s

-- the loop ends behind this round
unfoldable pub gives_up : Feeder → Bool
gives_up s = leb max_failures s.failures
