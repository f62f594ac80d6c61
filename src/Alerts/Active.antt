-- ===== src/Alerts/Active.antt =====
-- The count of active alerts, and alerts_clear_all.
use embedded_network_monitor.Prelude.{
  ℕ, zero, suc, ◌≡◌, refl, ap, ◌∙◌, List, [], ◌∷◌, map, arith, length, take,
}
use embedded_network_monitor.Alerts.State.{
  Alerts, AlertEntry, count_active, deactivate, clear_all, get_log, recount,
}
use embedded_network_monitor.Alerts.Log.{IsLog}

count_active-deactivate :
    (n : ℕ) (log : List AlertEntry) → count_active (take n (map deactivate log)) ≡ 0
unfolding count_active deactivate
count_active-deactivate zero log = refl
count_active-deactivate (suc n) [] = refl
count_active-deactivate (suc n) (e ∷ log) = ground (arith, count_active-deactivate n log)

length-map {ℓ κ} :
    {A : Type ℓ} {B : Type κ} (g : A → B) (xs : List A) → length (map g xs) ≡ length xs
length-map g [] = refl
length-map g (x ∷ xs) = ap suc (length-map g xs)

-- `alerts_clear_all` leaves no alert active: the count is 0, counting the log again still gives 0,
-- and the log keeps its size, its head and its number of entries.
pub clear_all_lem :
    (s : Alerts)
    → IsLog s
    → let t = clear_all s in
      (t.active_count ≡ 0)
      × ((recount t).active_count ≡ 0)
      × (((get_log t).1 ≡ s.count) × (t.head ≡ s.head))
      × IsLog t
unfolding clear_all recount get_log
clear_all_lem s v = (
  refl,
  omega (arith, count_active-deactivate s.count s.log),
  (refl, refl),
  record {
    log_size = length-map deactivate s.log ∙ v.log_size;
    head_in = v.head_in;
    count_in = v.count_in;
  },
)
