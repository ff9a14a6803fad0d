-- ===== src/Matcher/Scan/Sound.antt =====
-- What a raw match says of the tokens.
use voip.Prelude.{
  ℕ, zero, suc, ◌+◌, ◌-◌, ◌≤◌, ◌<◌, max, ◌≡◌, refl, true, false, List, [], ◌∷◌, Option, none, some,
  arith, length, take, drop, Text, Bool-cases, inl, inr, All, All-append, All-map, Any, join,
}
use voip.Matcher.Phrases.{Tier, Anchor, How, Phrase, Match}
use voip.Matcher.Levenshtein.{range}
use voip.Matcher.Spans.{FloatOps, Thresholds, less, kill_for, review_for}
use voip.Matcher.Select.Chosen.{select-Selected}
use voip.Matcher.Scan.{
  Corpus, Candidate, near_widths, starts, wake_of, woken, scan_from, widths, score_span, better,
  consider, scan_starts, scan_widths, grade, report, report_best, raw_of, raw_matches, at_kill,
  tier_of, match,
}

pub range-All : (n lo : ℕ) → All (λ k. (lo ≤ k) × (k < lo + n)) (range n lo)
unfolding range
range-All zero lo = tt
range-All (suc n) lo = (
  (omega arith, omega arith),
  All-map (λ k. (suc lo ≤ k) × (k < suc lo + n)) (λ k. (lo ≤ k) × (k < lo + suc n))
      (range n (suc lo)) (λ k h. (omega (arith, h.0), omega (arith, h.1))) (range-All n (suc lo)),
)

-- The span of `w` tokens from `s` ends behind `since`, within the tokens.
abbrev pub Fresh : ℕ → ℕ → ℕ → ℕ → Type 0
Fresh n since w s = (since < s + w) × (s + w ≤ n)

pub starts-Fresh : (n since w : ℕ) → 0 < w → All (Fresh n since w) (starts n since w)
unfolding starts
starts-Fresh n since w pos =
    All-map (λ k. (suc since - w ≤ k) × (k < (suc since - w) + (suc n - w - (suc since - w))))
      (Fresh n since w) (range (suc n - w - (suc since - w)) (suc since - w))
      (λ k h. (omega (arith, h.0, h.1), omega (arith, h.0, h.1)))
      (range-All (suc n - w - (suc since - w)) (suc since - w))

module _ (ops : FloatOps) (th : Thresholds (FloatOps.Float ops)) where
  open ops use {Float, leb}

  -- A scored span of the tokens that ends behind `since`.
  pub record Scored (p : Phrase) (tokens : List Text) (since : ℕ) (c : Candidate Float)
      : Type 0 where
    pub nonempty : c.start < c.stop
    pub new : since < c.stop
    pub inside : c.stop ≤ length tokens
    pub scored :
        score_span ops th p (take (c.stop - c.start) (drop c.start tokens)) ≡ (c.score, some c.how)

  abbrev AllScored : Phrase → List Text → ℕ → Option (Candidate Float) → Type 0
  AllScored p tokens since none = Unit
  AllScored p tokens since (some c) = Scored p tokens since c

  better-AllScored :
      (p : Phrase) (tokens : List Text) (since : ℕ) (new : Candidate Float)
      (best : Option (Candidate Float))
      → Scored p tokens since new
      → AllScored p tokens since best
      → Scored p tokens since (better ops th new best)
  unfolding better
  better-AllScored p tokens since new none h hb = h
  better-AllScored p tokens since new (some best) h hb =
      elim (Bool-cases (less ops best.score new.score)) [
        | inl more ↦ rw more h
        | inr less_good ↦ rw less_good hb
      ]

  consider-AllScored :
      (p : Phrase) (tokens : List Text) (since w s : ℕ) (r : Float × Option How)
      (best : Option (Candidate Float))
      → 0 < w
      → Fresh (length tokens) since w s
      → score_span ops th p (take w (drop s tokens)) ≡ r
      → AllScored p tokens since best
      → AllScored p tokens since (consider ops th w s r best)
  unfolding consider
  consider-AllScored p tokens since w s (score, none) best pos fresh e h = h
  consider-AllScored p tokens since w s (score, some how) best pos fresh e h =
      let width : s + w - s ≡ w = omega arith in
      better-AllScored p tokens since (record { score = score; start = s; stop = s + w; how = how })
        best
        (record { nonempty = omega arith; new = fresh.0; inside = fresh.1; scored = rw width e }) h

  scan_starts-AllScored :
      (p : Phrase) (tokens : List Text) (since w : ℕ) (ss : List ℕ)
      (best : Option (Candidate Float))
      → 0 < w
      → All (Fresh (length tokens) since w) ss
      → AllScored p tokens since best
      → AllScored p tokens since (scan_starts ops th p tokens w ss best)
  unfolding scan_starts
  scan_starts-AllScored p tokens since w [] best pos fresh h = h
  scan_starts-AllScored p tokens since w (s ∷ ss) best pos fresh h =
      scan_starts-AllScored p tokens since w ss
        (consider ops th w s (score_span ops th p (take w (drop s tokens))) best) pos fresh.1
        (consider-AllScored p tokens since w s (score_span ops th p (take w (drop s tokens))) best
          pos fresh.0 refl h)

  scan_widths-AllScored :
      (p : Phrase) (tokens : List Text) (since : ℕ) (ws : List ℕ) (best : Option (Candidate Float))
      → All (λ w. 0 < w) ws
      → AllScored p tokens since best
      → AllScored p tokens since (scan_widths ops th p tokens since ws best)
  unfolding scan_widths
  scan_widths-AllScored p tokens since [] best pos h = h
  scan_widths-AllScored p tokens since (w ∷ ws) best pos h =
      scan_widths-AllScored p tokens since ws
        (scan_starts ops th p tokens w (starts (length tokens) since w) best) pos.1
        (scan_starts-AllScored p tokens since w (starts (length tokens) since w) best pos.0
          (starts-Fresh (length tokens) since w pos.0) h)

  widths-All : (p : Phrase) → All (λ w. 0 < w) (widths ops th p)
  unfolding widths near_widths
  widths-All p =
      elim p.anchor
        as (λ a.
          All (λ w. 0 < w)
            (elim a [
              | Anchor.brand ↦ range th.brand_span 1
              | Anchor.pair ↦ near_widths (length p.tokens)
              | Anchor.seq ↦ near_widths (length p.tokens)
            ])) [
              | Anchor.brand ↦ positive th.brand_span 1 (omega arith)
              | Anchor.pair ↦ positive (length p.tokens + 2 - lo) lo (omega arith)
              | Anchor.seq ↦ positive (length p.tokens + 2 - lo) lo (omega arith)
            ]
    where
      lo : ℕ
      lo = max 1 (length p.tokens - 1)

      positive : (n lo : ℕ) → 0 < lo → All (λ w. 0 < w) (range n lo)
      positive n lo h =
          All-map (λ k. (lo ≤ k) × (k < lo + n)) (λ w. 0 < w) (range n lo)
            (λ k b. omega (arith, b.0)) (range-All n lo)

  -- What the tier of a match requires: no tier below the review line, and an event, a suppressor
  -- or an exclusion only at the kill line.
  abbrev pub Earned : Phrase → Tier → Float → Type 0
  Earned p Tier.a score = (p.tier ≡ Tier.a) × (leb (kill_for ops th p.anchor) score ≡ true)
  Earned p Tier.a_near score = (p.tier ≡ Tier.a) × (leb (kill_for ops th p.anchor) score ≡ false)
  Earned p tier score = (p.tier ≡ tier) × (leb (kill_for ops th p.anchor) score ≡ true)

  pub record Reported (tokens : List Text) (since : ℕ) (m : Match Float) : Type 0 where
    pub from_span :
        Scored m.phrase tokens since
          (record { score = m.score; start = m.start; stop = m.stop; how = m.how })
    pub text : m.span ≡ join (take (m.stop - m.start) (drop m.start tokens))
    pub reviewed : leb (review_for ops th m.phrase.anchor) m.score ≡ true
    pub earned : Earned m.phrase m.tier m.score

  abbrev AllEarned : Phrase → Float → Option Tier → Type 0
  AllEarned p score none = Unit
  AllEarned p score (some tier) =
      (leb (review_for ops th p.anchor) score ≡ true) × Earned p tier score

  at_kill-AllEarned :
      (p : Phrase) (score : Float)
      → leb (review_for ops th p.anchor) score ≡ true
      → ((leb (kill_for ops th p.anchor) score ≡ true) → Earned p p.tier score)
      → AllEarned p score (at_kill ops th p score)
  unfolding at_kill less
  at_kill-AllEarned p score enough f = elim (Bool-cases (leb (kill_for ops th p.anchor) score)) [
    | inl k ↦ rw k (enough, f k)
    | inr k ↦ rw k tt
  ]

  tier_of-AllEarned :
      (p : Phrase) (score : Float) (t : Tier)
      → p.tier ≡ t
      → leb (review_for ops th p.anchor) score ≡ true
      → AllEarned p score (tier_of ops th p score t)
  unfolding tier_of
  tier_of-AllEarned p score Tier.a e enough =
      elim (Bool-cases (leb (kill_for ops th p.anchor) score)) [
        | inl k ↦ rw k (enough, (e, k))
        | inr k ↦ rw k (enough, (e, k))
      ]
  tier_of-AllEarned p score Tier.a_near e enough = tt
  tier_of-AllEarned p score Tier.b e enough = at_kill-AllEarned p score enough (λ k. rw e (refl, k))
  tier_of-AllEarned p score Tier.c e enough = at_kill-AllEarned p score enough (λ k. rw e (refl, k))
  tier_of-AllEarned p score Tier.x e enough = at_kill-AllEarned p score enough (λ k. rw e (refl, k))

  grade-AllEarned : (p : Phrase) (score : Float) → AllEarned p score (grade ops th p score)
  unfolding grade less
  grade-AllEarned p score = elim (Bool-cases (leb (review_for ops th p.anchor) score)) [
    | inl enough ↦ rw enough (tier_of-AllEarned p score p.tier refl enough)
    | inr low ↦ rw low tt
  ]

  report-All :
      (p : Phrase) (tokens : List Text) (since : ℕ) (c : Candidate Float) (t : Option Tier)
      → Scored p tokens since c
      → AllEarned p c.score t
      → All (Reported tokens since) (report ops th p tokens c t)
  unfolding report
  report-All p tokens since c none h e = tt
  report-All p tokens since c (some tier) h e = (
    record {
      from_span = record {
        nonempty = h.nonempty;
        new = h.new;
        inside = h.inside;
        scored = h.scored;
      };
      text = refl;
      reviewed = e.0;
      earned = e.1;
    },
    tt,
  )

  report_best-All :
      (p : Phrase) (tokens : List Text) (since : ℕ) (best : Option (Candidate Float))
      → AllScored p tokens since best
      → All (Reported tokens since) (report_best ops th p tokens best)
  unfolding report_best
  report_best-All p tokens since none h = tt
  report_best-All p tokens since (some c) h =
      report-All p tokens since c (grade ops th p c.score) h (grade-AllEarned p c.score)

  raw_of-All :
      (tokens : List Text) (since : ℕ) (ps : List Phrase)
      → All (Reported tokens since) (raw_of ops th tokens since ps)
  unfolding raw_of
  raw_of-All tokens since [] = tt
  raw_of-All tokens since (p ∷ ps) =
      let best = scan_widths ops th p tokens since (widths ops th p) none in
      All-append (Reported tokens since) (report_best ops th p tokens best)
        (raw_of ops th tokens since ps)
        (report_best-All p tokens since best
          (scan_widths-AllScored p tokens since (widths ops th p) none (widths-All p) tt))
        (raw_of-All tokens since ps)

  Any-of :
      (P : Match Float → Type 0) (ms : List (Match Float)) (m : Match Float)
      → All P ms
      → Any (λ k. k ≡ m) ms
      → P m
  Any-of P [] m h a = elim a [ ]
  Any-of P (k ∷ ks) m h (inl e) = rw (← e) h.0
  Any-of P (k ∷ ks) m h (inr a) = Any-of P ks m h.1 a

  -- Each match that is returned is a scored span of the tokens: not empty, within them, ending
  -- behind `since`, with the text of its tokens; its score is at least the review line of its
  -- phrase and the tier is the one that the score earns.
  pub match-Reported :
      (corpus : Corpus) (tokens : List Text) (since : ℕ)
      → All (Reported tokens since) (match ops th corpus tokens since false)
  unfolding match raw_matches
  match-Reported corpus tokens since =
      let raw = raw_matches ops th corpus tokens since in
      All-map (λ m. Any (λ k. k ≡ m) raw) (Reported tokens since)
        (match ops th corpus tokens since false)
        (λ m a.
          Any-of (Reported tokens since) raw m
            (raw_of-All tokens since (
              woken (wake_of corpus.by_index (drop (scan_from corpus since) tokens)) 0
                corpus.phrases))
            a)
        (select-Selected ops raw).known
