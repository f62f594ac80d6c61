-- ===== src/Alerts/Log.antt =====
-- The alert log: a ring of 64 entries that keeps the last 64 alerts raised.
use embedded_network_monitor.Prelude.{
  ◌+◌, ◌≤◌, ◌<◌, ◌≡◌, refl, sym, ap, ◌∙◌, Bool, true, false, List, [], ◌∷◌, ◌++◌, append-nil,
  append_assoc, arith, if◌then◌else◌, length, length-append, length-set,
}
use embedded_network_monitor.Prelude.Window.{
  contents, contents-push, last, last_all, last-last-append, length-window,
}
use embedded_network_monitor.Alerts.State.{
  Alerts, AlertEntry, Counters, blank_entry, max_alerts, push_entry,
}

-- the alerts in the log, oldest first
abbrev pub entries : Alerts → List AlertEntry
entries s = contents blank_entry s.log max_alerts s.head s.count

pub record IsLog (s : Alerts) : Type 0 where
  pub log_size : length s.log ≡ max_alerts
  pub head_in : s.head < max_alerts
  pub count_in : s.count ≤ max_alerts

-- `t` is `s` after the alerts `es` were raised, in that order.
pub record Raises (s : Alerts) (es : List AlertEntry) (t : Alerts) : Type 0 where
  pub valid : IsLog t
  pub logged : entries t ≡ last max_alerts (entries s ++ es)
  pub counted : t.active_count ≡ s.active_count + length es
  pub ignored : t.ignore ≡ s.ignore

length-entries : (s : Alerts) → length (entries s) ≡ s.count
length-entries s = length-window blank_entry s.log max_alerts _ s.count

-- a state with the log of `s`
pub Raises-none :
    (s : Alerts) (hyst : List Counters) → IsLog s → Raises s [] (record s { hyst = hyst })
Raises-none s hyst v = record {
  valid = record { log_size = v.log_size; head_in = v.head_in; count_in = v.count_in };
  logged = sym (
      rw append-nil
        (last_all max_alerts (entries s) (omega (arith, length-entries s, v.count_in))));
  counted = omega arith;
  ignored = refl;
}

pub Raises-push : (s : Alerts) (e : AlertEntry) → IsLog s → Raises s (e ∷ []) (push_entry s e)
unfolding push_entry
Raises-push s e v = record {
  valid = record {
    log_size = length-set s.log s.head e ∙ v.log_size;
    head_in = omega arith;
    count_in = ground (arith, v.count_in);
  };
  logged =
      contents-push blank_entry s.log max_alerts s.head s.count e (omega (arith, v.log_size))
        v.head_in v.count_in;
  counted = omega arith;
  ignored = refl;
}

pub Raises-append :
    (s t u : Alerts) (es fs : List AlertEntry)
    → Raises s es t
    → Raises t fs u
    → Raises s (es ++ fs) u
Raises-append s t u es fs p q = record {
  valid = q.valid;
  logged =
      q.logged
      ∙ ap (λ xs. last max_alerts (xs ++ fs)) p.logged
      ∙ last-last-append max_alerts (entries s ++ es) fs
      ∙ ap (last max_alerts) (append_assoc (entries s) es fs);
  counted = omega (arith, q.counted, p.counted, length-append es fs);
  ignored = q.ignored ∙ p.ignored;
}

-- an alert that is raised if it is due
abbrev pub if_due : Bool → AlertEntry → List AlertEntry
if_due due e = if due then e ∷ [] else []

pub Raises-if :
    (s : Alerts) (hyst : List Counters) (due : Bool) (e : AlertEntry)
    → IsLog s
    → Raises s
        (if_due due e)
        (if due then push_entry (record s { hyst = hyst }) e else record s { hyst = hyst })
Raises-if s hyst true e v =
    Raises-append s (record s { hyst = hyst }) _ [] (e ∷ []) (Raises-none s hyst v)
      (Raises-push _ e (Raises-none s hyst v).valid)
Raises-if s hyst false e v = Raises-none s hyst v
