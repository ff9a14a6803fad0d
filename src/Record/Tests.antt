-- ===== src/Record/Tests.antt =====
-- The counters of one customer at a concrete hour; a rate is the plain quotient.
use voip.Prelude.{
  List, ℕ, ◌*◌, ◌/◌, ◌≡◌, refl, true, false, [], ◌∷◌, some, none, arith, leb, Text, codes, Text-eq,
  same_text, member,
}
use voip.Prelude.Dict
use voip.Metaphone.Loop.{is_empty}
use voip.Record.Counters.{
  Kind, CustomerCounters, rows_of, add, with_events, trim_all, trim, trim_rows, since_cutoff, rate,
  over, too_soon, last_of, alerted, alerts, check_alerts, count, same_kind,
}
use voip.Record.Counters.Saved.{
  Saved, StateFiles, completed, save, start, load, load_saved, load_events, recent_rows, keep_rows,
  or_empty, with_state, state_of,
}
use voip.Record.Counters.Restart.{Survives, save-Survives}
use voip.Record.Counters.Trim.{Recorded, add-Recorded}
use voip.Record.Counters.Alerts.{Step, added, checked, ChecksBefore, run_steps, check_alerts_quiet}

abbrev pub floor_ip : Text
floor_ip = codes "192.0.2.7"

abbrev pub counters : CustomerCounters ℕ
counters = record {
  window_s = 100;
  alert_kill_rate = 1;
  alert_b_rate = 20;
  alert_min_calls = 1;
  alert_interval_s = 50;
  events = (floor_ip, (5, Kind.calls) ∷ (9, Kind.calls) ∷ (60, Kind.kill) ∷ []) ∷ [];
  last_alert = [];
}

abbrev per_1k : ℕ → ℕ → ℕ
per_1k k n = 1000 * k / n

rows_in_order :
    rows_of floor_ip counters.events ≡ (5, Kind.calls) ∷ (9, Kind.calls) ∷ (60, Kind.kill) ∷ []
unfolding rows_of Dict.get same_text
rows_in_order = refl

named : is_empty floor_ip ≡ false
unfolding is_empty
named = refl

add-Recorded_example :
    Recorded counters floor_ip Kind.near 107 (add floor_ip (some Kind.near) 107 counters)
add-Recorded_example =
    add-Recorded counters floor_ip Kind.near 107 named
      (rw rows_in_order ((omega arith, (omega arith, tt)), ((omega arith, tt), (tt, tt))))
      (rw rows_in_order (omega arith, (omega arith, (omega arith, tt))))

fired_once : member floor_ip (check_alerts leb 0 per_1k 60 counters).0 ≡ true
unfolding check_alerts alerts with_events trim_all trim trim_rows since_cutoff rate over too_soon
    last_of alerted count same_kind Dict.get Dict.put member same_text
fired_once = refl

-- Another customer is recorded and alerted on in between.
abbrev other_steps : List Step
other_steps =
    checked 70
    ∷ added (codes "192.0.2.8") (some Kind.calls) 80
    ∷ added (codes "192.0.2.8") (some Kind.kill) 81
    ∷ checked 90
    ∷ []

check_alerts_quiet_example :
    member floor_ip (run_steps leb 0 per_1k other_steps (check_alerts leb 0 per_1k 60 counters).1).0
    ≡ false
check_alerts_quiet_example =
    check_alerts_quiet leb 0 per_1k counters floor_ip 60 other_steps fired_once soon
  where
    soon : ChecksBefore 110 other_steps
    soon = (omega arith, (omega arith, tt))

-- No state file yet, in a file system that holds the values themselves.
abbrev no_files : StateFiles Saved
no_files = record { state = none; tmp = none }

save-Survives_example :
    Survives
      (λ saved. some saved)
      floor_ip
      107
      counters
      no_files
      (save (λ saved. saved) completed counters no_files)
      completed
save-Survives_example =
    save-Survives (λ saved. saved) (λ saved. some saved) completed floor_ip 107 counters no_files
      (λ saved. refl) (tt, tt)

-- The call of time 5 is not of the window any more.
restarted :
    rows_of floor_ip
      (start
        (λ saved. some saved)
        (save (λ saved. saved) completed counters no_files)
        107
        counters).events
    ≡ (9, Kind.calls) ∷ (60, Kind.kill) ∷ []
unfolding save start load load_saved load_events recent_rows keep_rows or_empty with_state state_of
    rows_of Dict.get Dict.put same_text
restarted = refl
