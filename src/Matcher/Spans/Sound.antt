-- ===== src/Matcher/Spans/Sound.antt =====
-- What a reported way of matching says of the span.
use voip.Prelude.{
  ℕ, ◌≤◌, ◌≡◌, true, false, List, Option, none, some, arith, ltb, ltb-false, Text, same_text,
  same_text-eq, join, Bool-cases, inl, inr,
}
use voip.Matcher.Levenshtein.{levenshtein}
use voip.Matcher.Levenshtein.Reference.{edit_distance}
use voip.Matcher.Levenshtein.Correct.{levenshtein-eq-min}
use voip.Matcher.Phrases.{How, Phrase}
use voip.Matcher.Spans.{
  FloatOps, Thresholds, all_common, edit_budget, score_seq, near_brand, score_brand, less,
  min_float, review_for,
}
use voip.Metaphone.Loop.{phonetic_equal}

module _ (ops : FloatOps) (th : Thresholds (FloatOps.Float ops)) (p : Phrase)
    (span : List Text) where
  -- What is claimed of the span, by the way it matched.
  abbrev pub Justified : Option How → Type 0
  Justified none = Unit
  Justified (some How.exact) = join span ≡ p.joined
  Justified (some How.edit) = edit_distance p.joined (join span) ≤ edit_budget ops th p.joined
  Justified (some How.phonetic) =
      (phonetic_equal (join span) p.joined ≡ true) × (all_common span ≡ false)

  score_seq-Justified : Justified (score_seq ops th p span).1
  unfolding score_seq
  score_seq-Justified = elim (Bool-cases (same_text (join span) p.joined)) [
    | inl same ↦ rw same (same_text-eq (join span) p.joined same)
    | inr other ↦ rw other (elim (Bool-cases (ltb budget d)) [
      | inl far ↦ rw far tt
      | inr near ↦
          rw near
            (omega (arith, levenshtein-eq-min p.joined (join span) budget, ltb-false budget d near))
    ])
  ]
    where
      budget : ℕ
      budget = edit_budget ops th p.joined

      d : ℕ
      d = levenshtein p.joined (join span) budget

  near_brand-Justified :
      (r : FloatOps.Float ops × Option How) → Justified r.1 → Justified (near_brand ops th p r).1
  unfolding near_brand
  near_brand-Justified (s, none) h = tt
  near_brand-Justified (s, some how) h = elim (Bool-cases (less ops ops.zero_float s)) [
    | inl positive ↦ rw positive h
    | inr zero_score ↦ rw zero_score tt
  ]

  score_brand-Justified : Justified (score_brand ops th p span).1
  unfolding score_brand
  score_brand-Justified = elim (Bool-cases (same_text (join span) p.joined)) [
    | inl same ↦ rw same (same_text-eq (join span) p.joined same)
    | inr other ↦ rw other (elim (Bool-cases (all_common span)) [
      | inl common ↦ rw common tt
      | inr rare ↦ rw rare (elim (Bool-cases (phonetic_equal (join span) p.joined)) [
        | inl sounds ↦ rw sounds (sounds, rare)
        | inr differs ↦
            rw differs (near_brand-Justified (score_seq ops th p span) score_seq-Justified)
      ])
    ])
  ]

  -- An exact match is the phrase itself; an edit match lies within the edit budget; a phonetic
  -- match sounds equal and is not built of common words alone. Both for a brand and for others.
  pub score-Justified :
      Justified (score_seq ops th p span).1 × Justified (score_brand ops th p span).1
  score-Justified = (score_seq-Justified, score_brand-Justified)

  min_float-le : (a b : FloatOps.Float ops) → ops.leb (min_float ops a b) b ≡ true
  unfolding min_float less
  min_float-le a b = ground (arith, ops.leb_total b b)

  near_brand_capped :
      (r : FloatOps.Float ops × Option How)
      → (near_brand ops th p r).1 ≡ some How.edit
      → ops.leb (near_brand ops th p r).0 (ops.add_float (review_for ops th p.anchor) ops.tiny)
        ≡ true
  unfolding near_brand
  near_brand_capped (s, none) h = cc
  near_brand_capped (s, some how) h = elim (Bool-cases (less ops ops.zero_float s)) [
    | inl positive ↦ rw positive (min_float-le s _)
    | inr zero_score ↦ cc (rw zero_score at h)
  ]

  -- A brand that is neither spelled nor pronounced right never scores above the review line by
  -- more than the tiny step.
  pub score_brand_near :
      (score_brand ops th p span).1 ≡ some How.edit
      → ops.leb (score_brand ops th p span).0 (ops.add_float (review_for ops th p.anchor) ops.tiny)
        ≡ true
  unfolding score_brand
  score_brand_near h = elim (Bool-cases (same_text (join span) p.joined)) [
    | inl same ↦ cc (rw same at h)
    | inr other ↦ rw other (elim (Bool-cases (all_common span)) [
      | inl common ↦ cc (rw (other, common) at h)
      | inr rare ↦ rw rare (elim (Bool-cases (phonetic_equal (join span) p.joined)) [
        | inl sounds ↦ cc (rw (other, rare, sounds) at h)
        | inr differs ↦
            rw differs
              (near_brand_capped (score_seq ops th p span) (rw (other, rare, differs) at h))
      ])
    ])
  ]
