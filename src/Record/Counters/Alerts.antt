-- ===== src/Record/Counters/Alerts.antt =====
-- How often a customer is alerted on.
use voip.Prelude.{
  ℕ, ◌+◌, ◌<◌, ◌≡◌, refl, sym, ap, ◌∙◌, Bool, true, false, not, ◌&&◌, List, [], ◌∷◌, ◌++◌, Option,
  none, some, arith, if_keeps, lt→ltb, Text, same_text, same_text-eq, Text-eq, member, Bool-cases,
  inl, inr,
}
use voip.Prelude.Dict
use voip.Metaphone.Loop.{is_empty}
use voip.Record.Counters.{
  Kind, Row, CustomerCounters, add, trim_all, with_events, alerted, over, too_soon, last_of, alerts,
  check_alerts,
}

-- What the daemon does with the counters between two looks at them.
pub data Step : Type 0 where
  added : Text → Option Kind → ℕ → Step
  checked : ℕ → Step

-- The checks of the steps come before a time.
abbrev pub ChecksBefore : ℕ → List Step → Type 0
ChecksBefore limit [] = Unit
ChecksBefore limit (added ip kind now ∷ steps) = ChecksBefore limit steps
ChecksBefore limit (checked now ∷ steps) = (now < limit) × ChecksBefore limit steps

module _ {Float : Type 0} (leb_float : Float → Float → Bool) (zero_float : Float)
    (per_1k : ℕ → ℕ → Float) where
  -- The guard of one round.
  abbrev due : CustomerCounters Float → Text → List Row → ℕ → Bool
  due c ip rows now = over leb_float zero_float per_1k c rows && not (too_soon c ip now)

  -- A fresh alert keeps its time through the rest of the round.
  alerts_keep :
      (now : ℕ) (ip : Text) (snapshot : List (Text × List Row)) (c : CustomerCounters Float)
      → Dict.get ip c.last_alert ≡ some now
      → Dict.get ip (alerts leb_float zero_float per_1k now snapshot c).1.last_alert ≡ some now
  unfolding alerts alerted
  alerts_keep now ip [] c h = h
  alerts_keep now ip ((jp, rows) ∷ snapshot) c h = elim (Bool-cases (due c jp rows now)) [
    | inl yes_due ↦
        rw (alerts, yes_due)
          (alerts_keep now ip snapshot (alerted c jp now)
            (ground (arith, Dict.get-put jp ip now c.last_alert, h)))
    | inr quiet ↦ rw (alerts, quiet) (alerts_keep now ip snapshot c h)
  ]

  alerts_stamp :
      (now : ℕ) (ip : Text) (snapshot : List (Text × List Row)) (c : CustomerCounters Float)
      → member ip (alerts leb_float zero_float per_1k now snapshot c).0 ≡ true
      → Dict.get ip (alerts leb_float zero_float per_1k now snapshot c).1.last_alert ≡ some now
  unfolding alerts alerted member
  alerts_stamp now ip [] c h = cc
  alerts_stamp now ip ((jp, rows) ∷ snapshot) c h = elim (Bool-cases (due c jp rows now)) [
    | inr quiet ↦ rw (alerts, quiet) (alerts_stamp now ip snapshot c (rw (alerts, quiet) at h))
    | inl yes_due ↦ elim (Bool-cases (same_text ip jp)) [
      | inl same ↦
          let e = same_text-eq ip jp same in
          rw (alerts, yes_due)
            (alerts_keep now ip snapshot (alerted c jp now)
              (ground (arith, Dict.get-put jp ip now c.last_alert, Text-eq.beq_iff jp ip, e)))
      | inr other ↦
          let h' : member ip
                (jp ∷ (alerts leb_float zero_float per_1k now snapshot (alerted c jp now)).0)
              ≡ true =
            rw (alerts, yes_due) at h in
          rw (alerts, yes_due)
            (alerts_stamp now ip snapshot (alerted c jp now) (ground (arith, h', other)))
    ]
  ]

  last_at :
      (ip : Text) (t : ℕ) (last : List (Text × ℕ)) → Dict.get ip last ≡ some t → last_of ip last ≡ t
  unfolding last_of
  last_at ip t last h = rw (last_of, h) refl

  still_too_soon :
      (c : CustomerCounters Float) (t now : ℕ) (ip : Text)
      → Dict.get ip c.last_alert ≡ some t
      → now < t + c.alert_interval_s
      → too_soon c ip now ≡ true
  unfolding too_soon
  still_too_soon c t now ip h soon =
      let last : last_of ip c.last_alert ≡ t = last_at ip t c.last_alert h in
      lt→ltb now (last_of ip c.last_alert + c.alert_interval_s) (omega (arith, last, soon))

  held :
      (t now : ℕ) (ip jp : Text) (rows : List Row) (c : CustomerCounters Float)
      → Dict.get ip c.last_alert ≡ some t
      → now < t + c.alert_interval_s
      → ip ≡ jp
      → due c jp rows now ≡ true
      → ⊥
  held t now ip jp rows c h soon e d =
      let same : too_soon c jp now ≡ true =
        ap (λ x. too_soon c x now) (sym e) ∙ still_too_soon c t now ip h soon in
      ground (arith, same, d)

  -- The customer was last alerted on at `t`, and the interval is `interval`.
  abbrev Stamped : Text → ℕ → ℕ → CustomerCounters Float → Type 0
  Stamped ip t interval c = (Dict.get ip c.last_alert ≡ some t) × (c.alert_interval_s ≡ interval)

  other_stamp :
      (t now : ℕ) (ip jp : Text) (c : CustomerCounters Float)
      → Dict.get ip c.last_alert ≡ some t
      → same_text ip jp ≡ false
      → Dict.get ip (alerted c jp now).last_alert ≡ some t
  unfolding alerted
  other_stamp t now ip jp c h other = ground (
    arith,
    Dict.get-put jp ip now c.last_alert,
    Text-eq.beq_iff jp ip,
    Text-eq.beq_iff ip jp,
    h,
    other,
  )

  -- Within the interval, no round alerts on the customer again, and the time of the alert stays.
  alerts_silent :
      (t now interval : ℕ) (ip : Text) (snapshot : List (Text × List Row))
      (c : CustomerCounters Float)
      → Stamped ip t interval c
      → now < t + interval
      → let r = alerts leb_float zero_float per_1k now snapshot c in
        (member ip r.0 ≡ false) × Stamped ip t interval r.1
  unfolding alerts alerted member
  alerts_silent t now interval ip [] c h soon = (refl, h)
  alerts_silent t now interval ip ((jp, rows) ∷ snapshot) c h soon =
      elim (Bool-cases (due c jp rows now)) [
        | inr quiet ↦ rw (alerts, quiet) (alerts_silent t now interval ip snapshot c h soon)
        | inl yes_due ↦ elim (Bool-cases (same_text ip jp)) [
          | inl same ↦ absurd (
              held t now ip jp rows c h.0 (omega (arith, h.1, soon)) (same_text-eq ip jp same)
                yes_due)
          | inr other ↦
              let later =
                alerts_silent t now interval ip snapshot (alerted c jp now)
                  (other_stamp t now ip jp c h.0 other, h.1) soon in
              rw (alerts, yes_due) (ground (arith, later.0, other), later.1)
        ]
      ]

  alerts-interval :
      (now : ℕ) (snapshot : List (Text × List Row)) (c : CustomerCounters Float)
      → (alerts leb_float zero_float per_1k now snapshot c).1.alert_interval_s ≡ c.alert_interval_s
  unfolding alerts alerted
  alerts-interval now [] c = refl
  alerts-interval now ((jp, rows) ∷ snapshot) c = elim (Bool-cases (due c jp rows now)) [
    | inl yes_due ↦ rw (alerts, yes_due) (alerts-interval now snapshot (alerted c jp now))
    | inr quiet ↦ rw (alerts, quiet) (alerts-interval now snapshot c)
  ]

  -- The customers alerted on by the steps, in order, and the counters behind them.
  unfoldable pub run_steps : List Step → CustomerCounters Float → List Text × CustomerCounters Float
  unfolding check_alerts add
  run_steps [] c = ([], c)
  run_steps (added ip kind now ∷ steps) c = run_steps steps (add ip kind now c)
  run_steps (checked now ∷ steps) c =
      let (fired, c') = check_alerts leb_float zero_float per_1k now c in
      let (later, c'') = run_steps steps c' in (fired ++ later, c'')

  add-Stamped :
      (ip jp : Text) (kind : Option Kind) (t now interval : ℕ) (c : CustomerCounters Float)
      → Stamped ip t interval c
      → Stamped ip t interval (add jp kind now c)
  unfolding add with_events
  add-Stamped ip jp none t now interval c h = h
  add-Stamped ip jp (some kind) t now interval c h =
      if_keeps (Stamped ip t interval) (is_empty jp) c _ h h

  member-append :
      (ip : Text) (xs ys : List Text)
      → member ip xs ≡ false
      → member ip ys ≡ false
      → member ip (xs ++ ys) ≡ false
  unfolding member
  member-append ip [] ys hx hy = hy
  member-append ip (x ∷ xs) ys hx hy = ground (arith, hx, member-append ip xs ys)

  steps_silent :
      (t interval : ℕ) (ip : Text) (steps : List Step) (c : CustomerCounters Float)
      → Stamped ip t interval c
      → ChecksBefore (t + interval) steps
      → member ip (run_steps steps c).0 ≡ false
  unfolding run_steps member check_alerts with_events
  steps_silent t interval ip [] c h before = refl
  steps_silent t interval ip (added jp kind now ∷ steps) c h before =
      steps_silent t interval ip steps (add jp kind now c)
        (add-Stamped ip jp kind t now interval c h) before
  steps_silent t interval ip (checked now ∷ steps) c h before =
      let snapshot = trim_all c.window_s now c.events c.events in
      let (quiet, h') =
        alerts_silent t now interval ip snapshot (with_events c snapshot) h before.0 in
      member-append ip _ _ quiet (steps_silent t interval ip steps _ h' before.1)

  -- A customer that a check alerts on is in no alert of any later check within the interval, whatever
  -- is recorded, checked and alerted on for it and for others in between.
  pub check_alerts_quiet :
      (c : CustomerCounters Float) (ip : Text) (now : ℕ) (steps : List Step)
      → member ip (check_alerts leb_float zero_float per_1k now c).0 ≡ true
      → ChecksBefore (now + c.alert_interval_s) steps
      → member ip (run_steps steps (check_alerts leb_float zero_float per_1k now c).1).0 ≡ false
  unfolding check_alerts with_events
  check_alerts_quiet c ip now steps fired before =
      let snapshot = trim_all c.window_s now c.events c.events in
      steps_silent now c.alert_interval_s ip steps
        (alerts leb_float zero_float per_1k now snapshot (with_events c snapshot)).1
        (
          alerts_stamp now ip snapshot (with_events c snapshot) fired,
          alerts-interval now snapshot (with_events c snapshot),
        )
        before
