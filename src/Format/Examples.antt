-- ===== src/Format/Examples.antt =====
-- Runs of core/utils.c on concrete inputs.
use embedded_network_monitor.Config.Text.{digits, decimal_nat}
use embedded_network_monitor.Prelude.{◌≡◌, refl, codes, ℕ, ◌≤◌, length, ◌∷◌, [], ◌+◌, ◌*◌, arith}
use embedded_network_monitor.Format.{format_ip, format_duration, duration_text}
use embedded_network_monitor.Tables.Scanf.{sscanf, number}
use embedded_network_monitor.Format.Addresses.{ip_format, format_ip_lem}

format_ip_run : format_ip 16885952 32 ≡ codes "192.168.1.1"
unfolding format_ip decimal_nat digits
format_ip_run = refl

format_duration_run : format_duration 90061 32 ≡ codes "1d 1h"
unfolding format_duration duration_text decimal_nat digits
format_duration_run = refl

format_ip_lem_example :
    (length (format_ip 16885952 32) ≤ 15)
    × ((a : ℕ) × (b : ℕ) × (c : ℕ) × (d : ℕ) × (sscanf ip_format (format_ip 16885952 32)
          ≡ number a ∷ number b ∷ number c ∷ number d ∷ [])
        × (16885952 ≡ a + 256 * b + 65536 * c + 16777216 * d))
format_ip_lem_example = format_ip_lem 16885952 (omega arith)
