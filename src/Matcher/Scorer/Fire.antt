-- ===== src/Matcher/Scorer/Fire.antt =====
-- When the Tier B scorer fires.
use native.Mathlib.Nat.{le_trans, mul-le-mul_right}
use voip.Prelude.{
  ◌+◌, ◌*◌, ◌≤◌, ◌<◌, ◌≡◌, ◌≢◌, refl, ap, inl, inr, String, true, false, ◌||◌, List, [], ◌∷◌, ◌++◌,
  arith, ◌↔◌, length, String-eq, member, set_add, union, member-union, Bool-cases, subset,
  subset_sound, subset_complete, subset_witness, ltb,
}
use voip.Matcher.Phrases.{Tier}
use voip.Matcher.Window.{Window, Hit}
use voip.Matcher.Scorer.{
  Scorer, contribute, restrain, contributing_of, suppressing_of, weigh, points, score, should_fire,
}
use voip.Matcher.Scorer.Sets.{
  signals, two_members, member-contributing_of, contributing_of-append, suppressing_of-append,
  NoSuppressor, suppressing_of-nil, OneCategory, contributing_of_one,
}

member_nil : (k : String) → member k [] ≡ false
unfolding member
member_nil k = refl

weigh-set_add : (s : Scorer) (k : String) (xs : List String) → weigh s xs ≤ weigh s (set_add k xs)
unfolding weigh set_add
weigh-set_add s k xs = ground arith

module _ {ℓ} {Score : Type ℓ} (s : Scorer) (w : Window Score) where
  -- The three branches, by what is stored and what is returned.
  quiet_branch :
      (ltb (score s w) s.threshold || subset (contributing_of [] w.hits) w.fired_categories) ≡ true
      → ((should_fire s w).0 ≡ w) × ((should_fire s w).1.fired ≡ false)
  unfolding should_fire
  quiet_branch h = elim (Bool-cases (ltb (score s w) s.threshold)) [
    | inl low ↦ rw low (refl, refl)
    | inr high ↦ let e = rw high at h in rw high (rw e (refl, refl))
  ]

  firing_branch :
      s.threshold ≤ score s w
      → subset (contributing_of [] w.hits) w.fired_categories ≡ false
      → ((should_fire s w).0 ≡ record w {
        fired_categories = union (contributing_of [] w.hits) w.fired_categories;
        b_events = w.b_events + 1;
      })
        × ((should_fire s w).1.fired ≡ true)
  unfolding should_fire
  firing_branch h new =
      let e : ltb (score s w) s.threshold ≡ false = ground arith in rw e (rw new (refl, refl))

  -- It fires exactly when the score reaches the threshold and some signal of the window has not
  -- fired in it before.
  pub should_fire_iff : ((should_fire s w).1.fired ≡ true) ↔ (
      (s.threshold ≤ score s w)
      × ((k : String) × (signals k w.hits ≡ true) × (member k w.fired_categories ≡ false)))
  should_fire_iff = (forward, backward)
    where
      forward :
          (should_fire s w).1.fired ≡ true
          → (s.threshold ≤ score s w)
            × ((k : String) × (signals k w.hits ≡ true) × (member k w.fired_categories ≡ false))
      forward h =
          elim (Bool-cases (
            ltb (score s w) s.threshold || subset (contributing_of [] w.hits) w.fired_categories)) [
              | inl quiet ↦ absurd (cc (quiet_branch quiet).1)
              | inr loud ↦
                  let (k, here, new) =
                    subset_witness (contributing_of [] w.hits) w.fired_categories (ground arith) in
                  (
                    ground arith,
                    (k, ground (arith, member-contributing_of k [] w.hits, member_nil k), new),
                  )
            ]

      backward :
          (s.threshold ≤ score s w)
            × ((k : String) × (signals k w.hits ≡ true) × (member k w.fired_categories ≡ false))
          → (should_fire s w).1.fired ≡ true
      backward (high, (k, here, new)) =
          elim (Bool-cases (subset (contributing_of [] w.hits) w.fired_categories)) [
            | inl old ↦
                absurd
                  (cc (subset_sound _ _ old k (ground (arith, member-contributing_of k [] w.hits))))
            | inr some_new ↦ (firing_branch high some_new).1
          ]

  -- A second call on the window that the first left changes nothing and does not fire.
  pub should_fire_quiet :
      subset (contributing_of [] w.hits) w.fired_categories ≡ true
      → ((should_fire s w).0 ≡ w) × ((should_fire s w).1.fired ≡ false)
  should_fire_quiet old = quiet_branch (ground (arith, old))

  score-le : score s w ≤ length (contributing_of [] w.hits) * s.unit
  unfolding score points
  score-le = omega arith

  score-quiet : NoSuppressor w.hits → length (contributing_of [] w.hits) * s.unit ≤ score s w
  unfolding score points weigh
  score-quiet quiet = rw (suppressing_of-nil w.hits quiet) (omega arith)

  -- Two different signals and no suppressor: at a threshold of at most two points it fires,
  -- unless the first has fired already.
  pub two_signals_fire :
      (k j : String)
      → signals k w.hits ≡ true
      → signals j w.hits ≡ true
      → k ≢ j
      → NoSuppressor w.hits
      → s.threshold ≤ 2 * s.unit
      → member k w.fired_categories ≡ false
      → (should_fire s w).1.fired ≡ true
  two_signals_fire k j hk hj ne quiet le new = should_fire_iff.1 (high, (k, hk, new))
    where
      size : 2 ≤ length (contributing_of [] w.hits)
      size =
          two_members _ k j (ground (arith, member-contributing_of k [] w.hits, hk))
            (ground (arith, member-contributing_of j [] w.hits, hj)) ne

      high : s.threshold ≤ score s w
      high = le_trans le (le_trans (mul-le-mul_right s.unit size) (score-quiet quiet))

  -- Where all Tier B hits are of one category and no hit is a near miss, it does not fire at a
  -- threshold above one point.
  pub OneCategory-is_silent :
      (k : String) → OneCategory k w.hits → s.unit < s.threshold → (should_fire s w).1.fired ≡ false
  OneCategory-is_silent k one lt = (quiet_branch quiet).1
    where
      low : score s w ≤ s.unit
      low = elim (contributing_of_one k w.hits [] one (inl refl)) [
        | inl e ↦ omega (arith, score-le, ap (λ (xs : List String). length xs * s.unit) e)
        | inr e ↦ omega (arith, score-le, ap (λ (xs : List String). length xs * s.unit) e)
      ]

      quiet :
          (ltb (score s w) s.threshold || subset (contributing_of [] w.hits) w.fired_categories)
          ≡ true
      quiet = ground (arith, low)

  -- One more Tier C hit at the end of the window never raises the score.
  pub score-suppressor :
      (h : Hit Score)
      → h.tier ≡ Tier.c
      → score s (record w { hits = w.hits ++ (h ∷ []) }) ≤ score s w
  unfolding score points contribute restrain
  score-suppressor h e = rw (contributing_of-append [] w.hits h) (
      rw (suppressing_of-append [] w.hits h)
        (rw e (omega (arith, weigh-set_add s h.category (suppressing_of [] w.hits)))))

-- After it fired, or did not, a second call on the same window changes nothing and is silent.
pub should_fire_again {ℓ} :
    {Score : Type ℓ} (s : Scorer) (w : Window Score)
    → ((should_fire s (should_fire s w).0).0 ≡ (should_fire s w).0)
      × ((should_fire s (should_fire s w).0).1.fired ≡ false)
should_fire_again s w =
    elim (Bool-cases
      (ltb (score s w) s.threshold || subset (contributing_of [] w.hits) w.fired_categories)) [
        | inl quiet ↦ let e = (quiet_branch s w quiet).0 in rw e (quiet_branch s w quiet)
        | inr loud ↦
            let e = (firing_branch s w (ground arith) (ground arith)).0 in
            rw e (
              should_fire_quiet s _ (
                subset_complete _ _ λ a m.
                  ground (arith, member-union a (contributing_of [] w.hits) w.fired_categories)))
      ]
