-- ===== src/Beacon/Spaced.antt =====
-- When api/api_beacon.c sends.
use embedded_network_monitor.Prelude.{
  ℕ, ◌+◌, ◌-◌, ◌^◌, ◌≤◌, ◌<◌, ◌≡◌, refl, inl, inr, true, false, Option, List, [], ◌∷◌, arith, leb,
  Bool-cases, Bytes,
}
use embedded_network_monitor.Config.Entries.{Config}
use embedded_network_monitor.Beacon.{
  Address, Beacon, interval_ms, not_started, api_beacon_init, api_beacon_tick, send_beacon, since,
}

-- a tick, with what it finds
pub record Tick : Type 0 where
  pub now : ℕ
  pub hostname : Bytes
  pub addresses : Option (List Address)

unfoldable pub ticks : List Tick → Beacon → Beacon
unfolding api_beacon_tick
ticks [] b = b
ticks (t ∷ ts) b = ticks ts (api_beacon_tick t.hostname t.addresses t.now b)

-- The clock does not go back, from `now` on.
abbrev pub IsOrdered : ℕ → List Tick → Type 0
IsOrdered now [] = Unit
IsOrdered now (t ∷ ts) = (now ≤ t.now) × (t.now < 2 ^ 64) × IsOrdered t.now ts

-- the time of the last tick
abbrev pub end_of : ℕ → List Tick → ℕ
end_of now [] = now
end_of now (t ∷ ts) = end_of t.now ts

-- the latest datagram, if there is one, went out at `now`
abbrev pub IsLatest : ℕ → List (ℕ × Bytes) → Type 0
IsLatest now [] = Unit
IsLatest now (s ∷ sends) = s.0 ≡ now

-- the latest datagram is older than the interval
abbrev pub IsBefore : ℕ → List (ℕ × Bytes) → Type 0
IsBefore now [] = Unit
IsBefore now (s ∷ sends) = s.0 + interval_ms ≤ now

abbrev pub IsSpaced : List (ℕ × Bytes) → Type 0
IsSpaced [] = Unit
IsSpaced (s ∷ sends) = IsBefore s.0 sends × IsSpaced sends

record IsRunning (now : ℕ) (b : Beacon) : Type 0 where
  opened : b.is_open ≡ true
  spaced : IsSpaced b.sends
  latest : IsLatest b.last_beacon_ms b.sends
  past : b.last_beacon_ms ≤ now
  due : now < b.last_beacon_ms + interval_ms

since_lem : (last now : ℕ) → last ≤ now → now < 2 ^ 64 → since last now ≡ now - last
since_lem last now h in_64 = omega arith

IsBefore-IsLatest :
    (last now : ℕ) (sends : List (ℕ × Bytes))
    → IsLatest last sends
    → last + interval_ms ≤ now
    → IsBefore now sends
IsBefore-IsLatest last now [] h late = tt
IsBefore-IsLatest last now (s ∷ sends) h late = omega (arith, h)

leb→le : {a b : ℕ} → leb a b ≡ true → a ≤ b
leb→le h = ground (arith, h)

leb→lt : {a b : ℕ} → leb a b ≡ false → b < a
leb→lt h = ground (arith, h)

tick-IsRunning :
    (t : Tick) (now : ℕ) (b : Beacon)
    → IsRunning now b
    → now ≤ t.now
    → t.now < 2 ^ 64
    → IsRunning t.now (api_beacon_tick t.hostname t.addresses t.now b)
unfolding api_beacon_tick send_beacon
tick-IsRunning t now b h later in_64 =
    let gap = since_lem b.last_beacon_ms t.now (omega (arith, h.past)) in_64 in
    elim (Bool-cases (leb interval_ms (since b.last_beacon_ms t.now))) [
      | inl e ↦
          let late = leb→le e in
          rw (h.opened, e)
            (record {
              opened = refl;
              spaced = (
                IsBefore-IsLatest b.last_beacon_ms t.now b.sends h.latest
                    (omega (arith, late, gap, h.past)),
                h.spaced,
              );
              latest = refl;
              past = omega arith;
              due = omega arith;
            })
      | inr e ↦
          let early = leb→lt e in
          rw (h.opened, e)
            (record {
              opened = refl;
              spaced = h.spaced;
              latest = h.latest;
              past = omega (arith, h.past);
              due = omega (arith, early, gap, h.past);
            })
    ]

ticks-IsRunning :
    (ts : List Tick) (now : ℕ) (b : Beacon)
    → IsRunning now b
    → IsOrdered now ts
    → IsRunning (end_of now ts) (ticks ts b)
unfolding ticks
ticks-IsRunning [] now b h order = h
ticks-IsRunning (t ∷ ts) now b h (later, in_64, order) =
    ticks-IsRunning ts t.now (api_beacon_tick t.hostname t.addresses t.now b)
      (tick-IsRunning t now b h later in_64) order

started-IsRunning : (cfg : Option Config) → IsRunning 0 (api_beacon_init true cfg not_started).1
unfolding api_beacon_init
started-IsRunning cfg = record {
  opened = refl;
  spaced = tt;
  latest = tt;
  past = omega arith;
  due = omega arith;
}

-- After a start with a socket and ticks by a clock that does not go back, any two datagrams in a row
-- are at least 5 seconds apart, and the last tick is less than 5 seconds behind the time that is kept,
-- which is the time of the latest datagram, if there is one.
pub ticks_lem :
    (cfg : Option Config) (ts : List Tick)
    → IsOrdered 0 ts
    → let b = ticks ts (api_beacon_init true cfg not_started).1 in
      IsSpaced b.sends
      × IsLatest b.last_beacon_ms b.sends
      × (end_of 0 ts < b.last_beacon_ms + interval_ms)
ticks_lem cfg ts order =
    let h =
      ticks-IsRunning ts 0 (api_beacon_init true cfg not_started).1 (started-IsRunning cfg) order in
    (h.spaced, h.latest, h.due)
