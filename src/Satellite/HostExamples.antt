-- ===== src/Satellite/HostExamples.antt =====
-- Runs of the URL parser and of the serial line of satellite/host on concrete inputs.
use embedded_network_monitor.Prelude.{
  starts_with, ◌≡◌, refl, none, some, List, [], ◌∷◌, ◌++◌, arith, codes,
}
use embedded_network_monitor.Prelude.Int.{pos}
use embedded_network_monitor.Satellite.Url.{
  parse_url, parse_rest, host_part, port_part, path_part, port_at, index_of,
}
use embedded_network_monitor.Satellite.UrlRead.{parse_url_lem}
use embedded_network_monitor.Satellite.Serial.{
  Outcome, took, interrupted, failed, serial_write, serial_write_lem, serial_write_from,
}
use embedded_network_monitor.Config.Text.{
  decimal_nat, atoi, strtol, signed, unsigned, is_space, is_digit, starts_digit, skip_space,
}

parse_url_lem_example :
    (parse_url 64 128 (codes "http://" ++ (codes "pi" ++ (b'/' ∷ codes "api/v1")))
      ≡ some (codes "pi", pos 80, b'/' ∷ codes "api/v1"))
    × (parse_url 64 128 (
          codes "http://" ++ (codes "pi" ++ (b':' ∷ (decimal_nat 8080 ++ (b'/' ∷ codes "api/v1")))))
        ≡ some (codes "pi", pos 8080, b'/' ∷ codes "api/v1"))
parse_url_lem_example =
    parse_url_lem (codes "pi") (codes "api/v1") 8080 64 128
      ((omega arith, omega arith), ((omega arith, omega arith), tt)) (omega arith) (omega arith)
      (omega arith)

-- No HTTPS; and a port that is not there is 0.
parse_url_run :
    (parse_url 64 128 (codes "https://pi/") ≡ none)
    × (parse_url 64 128 (codes "pi:/x") ≡ some (codes "pi", pos 0, codes "/x"))
unfolding parse_url parse_rest host_part port_part path_part port_at index_of atoi strtol signed
    unsigned is_space is_digit starts_digit skip_space starts_with
parse_url_run = (refl, refl)

-- The kernel takes a byte, then a signal comes, then it takes nothing and at last the rest.
abbrev outcomes : List Outcome
outcomes = took 1 ∷ interrupted ∷ took 0 ∷ took 1 ∷ took 7 ∷ []

serial_write_lem_example :
    serial_write outcomes (170 ∷ 85 ∷ 1 ∷ []) ≡ record { sent = 170 ∷ 85 ∷ 1 ∷ []; result = some 3 }
serial_write_lem_example = serial_write_lem outcomes (170 ∷ 85 ∷ 1 ∷ []) tt (omega arith)

-- An error ends the call behind the bytes that went out.
serial_write_run :
    serial_write (took 2 ∷ failed ∷ took 1 ∷ []) (170 ∷ 85 ∷ 1 ∷ [])
    ≡ record { sent = 170 ∷ 85 ∷ []; result = none }
unfolding serial_write serial_write_from
serial_write_run = refl
