-- ===== src/Matcher/Scorer.antt =====
-- `BScorer` of phraseguard/matcher.py. Points and weights are in fixed point: `unit` steps make
-- one point, so the defaults 2.0, 1.5 and 0.5 are exact at `unit` = 2.
pub mod Sets
pub mod Fire
pub mod Tests
use voip.Prelude.{
  ℕ, ◌+◌, ◌-◌, ◌*◌, min, String, Bool, true, false, List, [], ◌∷◌, ltb, str_eq, if◌then◌else◌,
  length, String-eq, set_add, union, subset,
}
use voip.Matcher.Phrases.{Tier}
use voip.Matcher.Window.{Window, Hit}

pub record Scorer : Type 0 where
  pub unit : ℕ
  pub threshold : ℕ
  pub c1_weight : ℕ
  pub c2_weight : ℕ
  pub max_suppress : ℕ

pub record Verdict : Type 0 where
  pub fired : Bool
  pub score : ℕ
  pub contributing : List String
  pub suppressing : List String

-- What a hit adds to `contributing`.
unfoldable pub contribute : Tier → String → List String → List String
contribute Tier.b category xs = set_add category xs
contribute Tier.a_near category xs = set_add "A-near" xs
contribute _ category xs = xs

-- What a hit adds to `suppressing`.
unfoldable pub restrain : Tier → String → List String → List String
restrain Tier.c category xs = set_add category xs
restrain _ category xs = xs

module _ {ℓ} {Score : Type ℓ} where
  -- The loop over window.hits.
  unfoldable pub contributing_of : List String → List (Hit Score) → List String
  unfolding contribute
  contributing_of xs [] = xs
  contributing_of xs (h ∷ hs) = contributing_of (contribute h.tier h.category xs) hs

  unfoldable pub suppressing_of : List String → List (Hit Score) → List String
  unfolding restrain
  suppressing_of xs [] = xs
  suppressing_of xs (h ∷ hs) = suppressing_of (restrain h.tier h.category xs) hs

-- The sum of the weights of the suppressing categories, before it is capped.
unfoldable pub weigh : Scorer → List String → ℕ
weigh s [] = 0
weigh s (c ∷ cs) = (if str_eq c "C1" then s.c1_weight else s.c2_weight) + weigh s cs

unfoldable pub points : Scorer → List String → List String → ℕ
unfolding weigh
points s contributing suppressing =
    length contributing * s.unit - min (weigh s suppressing) s.max_suppress

module _ {ℓ} {Score : Type ℓ} where
  -- max(0.0, raw - suppress): subtraction stops at 0.
  unfoldable pub score : Scorer → Window Score → ℕ
  score s w = points s (contributing_of [] w.hits) (suppressing_of [] w.hits)

  unfoldable pub should_fire : Scorer → Window Score → Window Score × Verdict
  should_fire s w =
      let contributing = contributing_of [] w.hits in
      let suppressing = suppressing_of [] w.hits in
      let total = score s w in
      let quiet : Verdict = record {
        fired = false;
        score = total;
        contributing = contributing;
        suppressing = suppressing;
      } in
      if ltb total s.threshold
      then (w, quiet)
      else if subset contributing w.fired_categories
      then (w, quiet)
      else (
        record w {
          fired_categories = union contributing w.fired_categories;
          b_events = w.b_events + 1;
        },
        record quiet { fired = true },
      )
