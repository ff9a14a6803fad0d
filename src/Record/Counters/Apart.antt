-- ===== src/Record/Counters/Apart.antt =====
-- phraseguard/record.py: check_alerts keeps one entry per customer.
use voip.Prelude.{
  ℕ, ◌-◌, ◌≡◌, refl, false, List, [], ◌∷◌, not, ◌&&◌, Text, Text-eq, Bool-cases, Option-cases, inl,
  inr, Bool, subst, sym,
}
use voip.Prelude.Dict
use voip.Prelude.Keys.{eqb}
use voip.Record.Counters.{
  Row, CustomerCounters, trim_rows, trim, trim_all, with_events, too_soon, alerted, over, alerts,
  check_alerts,
}
use voip.Record.Counters.Restart.{Distinct}

put-Distinct :
    (ip : Text) (rows : List Row) (events : List (Text × List Row))
    → Distinct events
    → Distinct (Dict.put ip rows events)
unfolding Dict.put
put-Distinct ip rows [] apart = (tt, tt)
put-Distinct ip rows ((j, old) ∷ events) apart = elim (Bool-cases (eqb j ip)) [
  | inl same ↦ rw (Dict.put, same) apart
  | inr other ↦
      rw (Dict.put, other)
        (
          Dict.put-All (λ q. eqb j q.0 ≡ false) ip rows events other apart.0,
          put-Distinct ip rows events apart.1,
        )
]

trim-Distinct :
    (window_s : ℕ) (ip : Text) (now : ℕ) (events : List (Text × List Row))
    → Distinct events
    → Distinct (trim window_s ip now events)
unfolding trim
trim-Distinct window_s ip now events apart = elim (Option-cases (Dict.get ip events)) [
  | inl missing ↦ rw (trim, missing) apart
  | inr (rows, found) ↦
      rw (trim, found) (put-Distinct ip (trim_rows (now - window_s) rows) events apart)
]

trim_all-Distinct :
    (window_s now : ℕ) (ips events : List (Text × List Row))
    → Distinct events
    → Distinct (trim_all window_s now ips events)
unfolding trim_all
trim_all-Distinct window_s now [] events apart = apart
trim_all-Distinct window_s now ((ip, rows) ∷ ips) events apart =
    trim_all-Distinct window_s now ips (trim window_s ip now events)
      (trim-Distinct window_s ip now events apart)

module _ {Float : Type 0} (leb_float : Float → Float → Bool) (zero_float : Float)
    (per_1k : ℕ → ℕ → Float) where
  alerts-events :
      (now : ℕ) (snapshot : List (Text × List Row)) (c : CustomerCounters Float)
      → (alerts leb_float zero_float per_1k now snapshot c).1.events ≡ c.events
  unfolding alerts alerted
  alerts-events now [] c = refl
  alerts-events now ((ip, rows) ∷ snapshot) c =
      elim (Bool-cases (over leb_float zero_float per_1k c rows && not (too_soon c ip now))) [
        | inl due ↦ rw (alerts, due) (alerts-events now snapshot (alerted c ip now))
        | inr quiet ↦ rw (alerts, quiet) (alerts-events now snapshot c)
      ]

  pub check_alerts-Distinct :
      (now : ℕ) (c : CustomerCounters Float)
      → Distinct c.events
      → Distinct (check_alerts leb_float zero_float per_1k now c).1.events
  unfolding check_alerts with_events
  check_alerts-Distinct now c apart =
      let events = trim_all c.window_s now c.events c.events in
      subst (λ e. Distinct e) (sym (alerts-events now events (with_events c events)))
        (trim_all-Distinct c.window_s now c.events c.events apart)
