-- ===== src/Matcher/Scorer/Tests.antt =====
-- The Tier B scorer at a concrete window, with the default weights in half points.
use voip.Prelude.{
  ℕ, ◌≤◌, ◌≡◌, ◌≢◌, ◌↔◌, refl, String, true, false, List, [], ◌∷◌, ◌++◌, member, arith, String-eq,
  str_eq_iff,
}
use voip.Matcher.Phrases.{Tier}
use voip.Matcher.Window.{Window, Hit}
use voip.Matcher.Scorer.{Scorer, score, should_fire}
use voip.Matcher.Scorer.Sets.{signals}
use voip.Matcher.Scorer.Fire.{
  should_fire_iff, two_signals_fire, OneCategory-is_silent, score-suppressor, should_fire_again,
}

abbrev pub scorer : Scorer
scorer = record { unit = 2; threshold = 4; c1_weight = 3; c2_weight = 1; max_suppress = 3 }

abbrev b_hit : String → Hit ℕ
b_hit category = record { ts = 5; tier = Tier.b; category = category; text = []; score = 100 }

abbrev c_hit : Hit ℕ
c_hit = record { ts = 5; tier = Tier.c; category = "C1"; text = []; score = 100 }

abbrev window_of : List (Hit ℕ) → Window ℕ
window_of hits = record {
  window_s = 90;
  context_words = 10;
  max_tokens = 4;
  tokens = [];
  times = [];
  dropped = 0;
  hits = hits;
  reported = [];
  fired_categories = [];
  b_events = 0;
}

abbrev pair : List (Hit ℕ)
pair = b_hit "B1" ∷ b_hit "B5" ∷ []

abbrev one : List (Hit ℕ)
one = b_hit "B1" ∷ b_hit "B1" ∷ []

no_fires : member {A = String} "B1" [] ≡ false
unfolding member
no_fires = refl

signals_b1 : signals "B1" pair ≡ true
unfolding signals
signals_b1 = refl

signals_b5 : signals "B5" pair ≡ true
unfolding signals
signals_b5 = refl

b_not_c : Tier.b ≢ Tier.c
b_not_c h = cc

b_not_near : Tier.b ≢ Tier.a_near
b_not_near h = cc

should_fire_iff_example : ((should_fire scorer (window_of pair)).1.fired ≡ true) ↔ (
    (4 ≤ score scorer (window_of pair))
    × ((k : String) × (signals k pair ≡ true) × (member {A = String} k [] ≡ false)))
should_fire_iff_example = should_fire_iff scorer (window_of pair)

should_fire_again_example :
    ((should_fire scorer (should_fire scorer (window_of pair)).0).0
      ≡ (should_fire scorer (window_of pair)).0)
    × ((should_fire scorer (should_fire scorer (window_of pair)).0).1.fired ≡ false)
should_fire_again_example = should_fire_again scorer (window_of pair)

abbrev b1 : String
b1 = "B1"

abbrev b5 : String
b5 = "B5"

b1_is_not_b5 : b1 ≢ b5
b1_is_not_b5 h = cc ((str_eq_iff b1 b5).1 h)

two_signals_fire_example : (should_fire scorer (window_of pair)).1.fired ≡ true
two_signals_fire_example =
    two_signals_fire scorer (window_of pair) "B1" "B5" signals_b1 signals_b5 b1_is_not_b5
      (b_not_c, (b_not_c, tt)) (omega arith) no_fires

OneCategory-is_silent_example : (should_fire scorer (window_of one)).1.fired ≡ false
OneCategory-is_silent_example =
    OneCategory-is_silent scorer (window_of one) "B1"
      ((λ h. refl), b_not_near, ((λ h. refl), b_not_near, tt)) (omega arith)

score-suppressor_example :
    score scorer (window_of (pair ++ (c_hit ∷ []))) ≤ score scorer (window_of pair)
score-suppressor_example = score-suppressor scorer (window_of pair) c_hit refl
