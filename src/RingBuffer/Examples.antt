-- ===== src/RingBuffer/Examples.antt =====
-- Runs and instances of the ring buffer, with `float` read as ℕ.
use embedded_network_monitor.Prelude.{ℕ, ◌≡◌, refl, some, [], ◌∷◌, ◌++◌, arith, get_or}
use embedded_network_monitor.Prelude.Int.{pos, negsuc}
use embedded_network_monitor.Prelude.Window.{last}
use embedded_network_monitor.Prelude.Floating.{nat_floating}
use embedded_network_monitor.RingBuffer.{Ring, init, push_all, get}
use embedded_network_monitor.RingBuffer.Laws.{IsValid, samples, samples-push_all, get-eq-sample}

abbrev wrapped : Ring ℕ
wrapped = record { buf = some (9 ∷ 7 ∷ 8 ∷ []); capacity = pos 3; head = 1; count = 3 }

wrapped-IsValid : IsValid wrapped
wrapped-IsValid = omega arith

wrapped-samples : samples wrapped ≡ 7 ∷ 8 ∷ 9 ∷ []
wrapped-samples = refl

init_then_push :
    push_all (init (some wrapped) (some (0 ∷ 0 ∷ 0 ∷ [])) (pos 3)) (1 ∷ 2 ∷ 3 ∷ 4 ∷ [])
    ≡ some (record { buf = some (4 ∷ 2 ∷ 3 ∷ []); capacity = pos 3; head = 1; count = 3 })
unfolding push_all init
init_then_push = refl

samples-push_all_example :
    (rb' : Ring ℕ) × (push_all (some wrapped) (1 ∷ 2 ∷ []) ≡ some rb')
    × IsValid rb'
    × (samples rb' ≡ last 3 (samples wrapped ++ 1 ∷ 2 ∷ []))
samples-push_all_example = samples-push_all wrapped (1 ∷ 2 ∷ []) wrapped-IsValid

get-eq-sample_example :
    (get (some wrapped) (pos 1) ≡ get_or (samples wrapped) 1 0)
    × (get (some wrapped) (negsuc 1) ≡ 0)
get-eq-sample_example = get-eq-sample wrapped 1 wrapped-IsValid
