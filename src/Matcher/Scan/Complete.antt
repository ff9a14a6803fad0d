-- ===== src/Matcher/Scan/Complete.antt =====
-- A phrase that is said word for word is found by the scan of the spans.
use native.Mathlib.Decide.{dec_lt}
use voip.Prelude.{
  ℕ, zero, suc, ◌+◌, ◌-◌, ◌≤◌, ◌<◌, max, ◌≡◌, ◌≢◌, ◌⊎◌, refl, sym, ap, ◌∙◌, true, List, [], ◌∷◌,
  ◌++◌, Option, none, some, arith, length, take, drop, Text, join, same_text, same_text_iff,
  Bool-cases, inl, inr, Any, Any-append_left, Any-append_right, length-append,
}
use voip.Matcher.Phrases.{Tier, Anchor, How, Phrase, Match}
use voip.Matcher.Levenshtein.{range}
use voip.Matcher.Spans.{FloatOps, Thresholds, less, score_seq, score_brand, kill_for, review_for}
use voip.Matcher.Scan.{
  Candidate, near_widths, starts, widths, score_span, better, consider, scan_starts, scan_widths,
  at_kill, tier_of, grade, report, report_best, raw_of,
}

range-Any : (n lo k : ℕ) → lo ≤ k → k < lo + n → Any (λ i. i ≡ k) (range n lo)
unfolding range
range-Any zero lo k h l = absurd (omega (arith, h, l))
range-Any (suc n) lo k h l = elim (dec_lt lo k) [
  | yes later ↦ inr (range-Any n (suc lo) k (omega (arith, later)) (omega (arith, l)))
  | no here ↦ inl (omega (arith, h, here))
]

module _ (ops : FloatOps) (th : Thresholds (FloatOps.Float ops)) where
  open ops use {Float, leb}

  self : (x : Float) → leb x x ≡ true
  self x = elim (Bool-cases (leb x x)) [ inl yes_le ↦ yes_le | inr no_le ↦ ops.leb_total x x no_le ]

  -- The best span so far scores at least `x`.
  abbrev pub Reaches : Float → Option (Candidate Float) → Type 0
  Reaches x none = ⊥
  Reaches x (some c) = leb x c.score ≡ true

  consider_keeps :
      (x : Float) (w s : ℕ) (r : Float × Option How) (best : Option (Candidate Float))
      → Reaches x best
      → Reaches x (consider ops th w s r best)
  unfolding consider better less
  consider_keeps x w s (score, none) best h = h
  consider_keeps x w s (score, some how) none h = elim h [ ]
  consider_keeps x w s (score, some how) (some best) h = elim (Bool-cases (leb score best.score)) [
    | inl lower ↦ rw (better, lower) h
    | inr higher ↦
        rw (better, higher)
          (ops.leb_trans x best.score score h (ops.leb_total score best.score higher))
  ]

  consider-Reaches :
      (x : Float) (w s : ℕ) (how : How) (best : Option (Candidate Float))
      → Reaches x (consider ops th w s (x, some how) best)
  unfolding consider better less
  consider-Reaches x w s how none = self x
  consider-Reaches x w s how (some best) = elim (Bool-cases (leb x best.score)) [
    | inl lower ↦ rw (better, lower) lower
    | inr higher ↦ rw (better, higher) (self x)
  ]

  scan_starts_keeps :
      (p : Phrase) (tokens : List Text) (w : ℕ) (x : Float) (ss : List ℕ)
      (best : Option (Candidate Float))
      → Reaches x best
      → Reaches x (scan_starts ops th p tokens w ss best)
  unfolding scan_starts
  scan_starts_keeps p tokens w x [] best h = h
  scan_starts_keeps p tokens w x (s ∷ ss) best h =
      scan_starts_keeps p tokens w x ss
        (consider ops th w s (score_span ops th p (take w (drop s tokens))) best)
        (consider_keeps x w s (score_span ops th p (take w (drop s tokens))) best h)

  scan_starts-Reaches :
      (p : Phrase) (tokens : List Text) (w k : ℕ) (x : Float) (how : How) (ss : List ℕ)
      (best : Option (Candidate Float))
      → score_span ops th p (take w (drop k tokens)) ≡ (x, some how)
      → Any (λ i. i ≡ k) ss
      → Reaches x (scan_starts ops th p tokens w ss best)
  unfolding scan_starts
  scan_starts-Reaches p tokens w k x how [] best e a = elim a [ ]
  scan_starts-Reaches p tokens w k x how (s ∷ ss) best e (inl here) =
      scan_starts_keeps p tokens w x ss
        (consider ops th w s (score_span ops th p (take w (drop s tokens))) best)
        (rw here (rw e (consider-Reaches x w k how best)))
  scan_starts-Reaches p tokens w k x how (s ∷ ss) best e (inr later) =
      scan_starts-Reaches p tokens w k x how ss
        (consider ops th w s (score_span ops th p (take w (drop s tokens))) best) e later

  scan_widths_keeps :
      (p : Phrase) (tokens : List Text) (since : ℕ) (x : Float) (ws : List ℕ)
      (best : Option (Candidate Float))
      → Reaches x best
      → Reaches x (scan_widths ops th p tokens since ws best)
  unfolding scan_widths
  scan_widths_keeps p tokens since x [] best h = h
  scan_widths_keeps p tokens since x (w ∷ ws) best h =
      scan_widths_keeps p tokens since x ws
        (scan_starts ops th p tokens w (starts (length tokens) since w) best)
        (scan_starts_keeps p tokens w x (starts (length tokens) since w) best h)

  scan_widths-Reaches :
      (p : Phrase) (tokens : List Text) (since w k : ℕ) (x : Float) (how : How) (ws : List ℕ)
      (best : Option (Candidate Float))
      → score_span ops th p (take w (drop k tokens)) ≡ (x, some how)
      → since < k + w
      → k + w ≤ length tokens
      → Any (λ i. i ≡ w) ws
      → Reaches x (scan_widths ops th p tokens since ws best)
  unfolding scan_widths starts
  scan_widths-Reaches p tokens since w k x how [] best e new inside a = elim a [ ]
  scan_widths-Reaches p tokens since w k x how (v ∷ ws) best e new inside (inl here) =
      scan_widths_keeps p tokens since x ws
        (scan_starts ops th p tokens v (starts (length tokens) since v) best)
        (rw here (
          scan_starts-Reaches p tokens w k x how
            (range (suc (length tokens) - w - (suc since - w)) (suc since - w)) best e
            (range-Any (suc (length tokens) - w - (suc since - w)) (suc since - w) k
              (omega (arith, new, inside)) (omega (arith, new, inside)))))
  scan_widths-Reaches p tokens since w k x how (v ∷ ws) best e new inside (inr later) =
      scan_widths-Reaches p tokens since w k x how ws
        (scan_starts ops th p tokens v (starts (length tokens) since v) best) e new inside later

  -- The words of the phrase score one, whatever its anchor.
  score_span_exact :
      (p : Phrase) (span : List Text)
      → join span ≡ p.joined
      → score_span ops th p span ≡ (ops.one_float, some How.exact)
  unfolding score_span score_seq score_brand
  score_span_exact p span e = by_anchor p.anchor
    where
      same : same_text (join span) p.joined ≡ true
      same = (same_text_iff (join span) p.joined).1 e

      by_anchor :
          (a : Anchor)
          → (elim a as (λ x. Float × Option How) [
            | Anchor.brand ↦ score_brand ops th p span
            | Anchor.pair ↦ score_seq ops th p span
            | Anchor.seq ↦ score_seq ops th p span
          ])
            ≡ (ops.one_float, some How.exact)
      by_anchor Anchor.brand = rw (score_brand, same) refl
      by_anchor Anchor.pair = rw (score_seq, same) refl
      by_anchor Anchor.seq = rw (score_seq, same) refl

  at_kill_exact :
      (p : Phrase) (score : Float)
      → leb (kill_for ops th p.anchor) score ≡ true
      → at_kill ops th p score ≡ some p.tier
  unfolding at_kill less
  at_kill_exact p score kill = rw (at_kill, kill) refl

  tier_of_exact :
      (p : Phrase) (score : Float) (t : Tier)
      → p.tier ≡ t
      → p.tier ≢ Tier.a_near
      → leb (kill_for ops th p.anchor) score ≡ true
      → tier_of ops th p score t ≡ some p.tier
  unfolding tier_of
  tier_of_exact p score Tier.a e near kill = rw (tier_of, kill) (ap some (sym e))
  tier_of_exact p score Tier.a_near e near kill = absurd (near e)
  tier_of_exact p score Tier.b e near kill = at_kill_exact p score kill
  tier_of_exact p score Tier.c e near kill = at_kill_exact p score kill
  tier_of_exact p score Tier.x e near kill = at_kill_exact p score kill

  grade_exact :
      (p : Phrase) (score : Float)
      → p.tier ≢ Tier.a_near
      → leb (review_for ops th p.anchor) score ≡ true
      → leb (kill_for ops th p.anchor) score ≡ true
      → grade ops th p score ≡ some p.tier
  unfolding grade less
  grade_exact p score near review kill =
      rw (grade, review) (tier_of_exact p score p.tier refl near kill)

  take-drop : (u w v : List Text) → take (length w) (drop (length u) (u ++ (w ++ v))) ≡ w
  take-drop [] [] v = refl
  take-drop [] (t ∷ w) v = ap (λ x. t ∷ x) (take-drop [] w v)
  take-drop (t ∷ u) w v = take-drop u w v

  -- The number of the phrase's words is one of the widths that are tried.
  widths-Any :
      (p : Phrase)
      → 0 < length p.tokens
      → (p.anchor ≢ Anchor.brand) ⊎ (length p.tokens ≤ th.brand_span)
      → Any (λ i. i ≡ length p.tokens) (widths ops th p)
  unfolding widths near_widths
  widths-Any p some_words fits = by_anchor p.anchor fits
    where
      lo : ℕ
      lo = max 1 (length p.tokens - 1)

      near : Any (λ i. i ≡ length p.tokens) (range (length p.tokens + 2 - lo) lo)
      near =
          range-Any (length p.tokens + 2 - lo) lo (length p.tokens) (omega (arith, some_words))
            (omega (arith, some_words))

      by_anchor :
          (a : Anchor)
          → (a ≢ Anchor.brand) ⊎ (length p.tokens ≤ th.brand_span)
          → Any
              (λ i. i ≡ length p.tokens)
              (elim a as (λ x. List ℕ) [
                | Anchor.brand ↦ range th.brand_span 1
                | Anchor.pair ↦ near_widths (length p.tokens)
                | Anchor.seq ↦ near_widths (length p.tokens)
              ])
      by_anchor Anchor.brand (inl other) = absurd (other refl)
      by_anchor Anchor.brand (inr small) =
          range-Any th.brand_span 1 (length p.tokens) (omega (arith, some_words))
            (omega (arith, small))
      by_anchor Anchor.pair _ = near
      by_anchor Anchor.seq _ = near

  -- The phrase is reported in its own tier, with a score of at least one.
  abbrev pub Found : Phrase → Match Float → Type 0
  Found p m = (m.phrase ≡ p) × (m.tier ≡ p.tier) × (leb ops.one_float m.score ≡ true)

  report_best-Any :
      (p : Phrase) (tokens : List Text) (best : Option (Candidate Float))
      → p.tier ≢ Tier.a_near
      → leb (review_for ops th p.anchor) ops.one_float ≡ true
      → leb (kill_for ops th p.anchor) ops.one_float ≡ true
      → Reaches ops.one_float best
      → Any (Found p) (report_best ops th p tokens best)
  unfolding report_best report
  report_best-Any p tokens none near review kill h = elim h [ ]
  report_best-Any p tokens (some c) near review kill h =
      rw
        (grade_exact p c.score near
          (ops.leb_trans (review_for ops th p.anchor) ops.one_float c.score review h)
          (ops.leb_trans (kill_for ops th p.anchor) ops.one_float c.score kill h))
        (inl (refl, refl, h))

  -- Where a phrase of the scanned ones, of a tier other than A-near, is said word for word behind
  -- `since`, it is among the raw matches in its own tier with a score of at least one: if it has
  -- words, joined as the corpus joins them, if the review and kill lines are at most one, and if a
  -- brand is no wider than the widest brand span.
  pub raw_of-Found :
      (u v : List Text) (since : ℕ) (before after : List Phrase) (p : Phrase)
      → 0 < length p.tokens
      → join p.tokens ≡ p.joined
      → (p.anchor ≢ Anchor.brand) ⊎ (length p.tokens ≤ th.brand_span)
      → p.tier ≢ Tier.a_near
      → leb (review_for ops th p.anchor) ops.one_float ≡ true
      → leb (kill_for ops th p.anchor) ops.one_float ≡ true
      → since < length u + length p.tokens
      → Any (Found p) (raw_of ops th (u ++ (p.tokens ++ v)) since (before ++ (p ∷ after)))
  unfolding raw_of
  raw_of-Found u v since (b ∷ before) after p words joined fits near review kill new =
      let tokens = u ++ (p.tokens ++ v) in
      Any-append_right (Found p)
        (report_best ops th b tokens (scan_widths ops th b tokens since (widths ops th b) none))
        (raw_of ops th tokens since (before ++ (p ∷ after)))
        (raw_of-Found u v since before after p words joined fits near review kill new)
  raw_of-Found u v since [] after p words joined fits near review kill new =
      let tokens = u ++ (p.tokens ++ v) in
      let span : take (length p.tokens) (drop (length u) tokens) ≡ p.tokens =
        take-drop u p.tokens v in
      let exact =
        score_span_exact p (take (length p.tokens) (drop (length u) tokens))
          (ap join span ∙ joined) in
      let size : length tokens ≡ length u + (length p.tokens + length v) =
        omega (arith, length-append u (p.tokens ++ v), length-append p.tokens v) in
      let best = scan_widths ops th p tokens since (widths ops th p) none in
      Any-append_left (Found p) (report_best ops th p tokens best)
        (raw_of ops th tokens since after)
        (report_best-Any p tokens best near review kill (
          scan_widths-Reaches p tokens since (length p.tokens) (length u) ops.one_float How.exact
            (widths ops th p) none exact new (omega (arith, size)) (widths-Any p words fits)))
