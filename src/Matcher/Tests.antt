-- ===== src/Matcher/Tests.antt =====
-- The matcher at concrete inputs, with hundredths for floats.
use native.Mathlib.Omega.{arith}
use voip.Prelude.{
  ◌≢◌, inr, Any, ℕ, ◌+◌, ◌-◌, ◌*◌, ◌/◌, min, ◌≡◌, refl, true, false, List, [], ◌∷◌, leb, leb→le,
  Text, codes, All,
}
use voip.Prelude.{member, set_add, same_text, ℕ-eq, Text-eq}
use voip.Prelude.Dict
use voip.Matcher.Normalize.{normalize}
use voip.Matcher.Window.{
  Window, bisect_left, overlaps, spans_of, forget, keep_from, evict, push, add, accept,
}
use voip.Matcher.Window.Bisect.{IsSorted}
use voip.Matcher.Window.Stream.{Tracks, append-IsSorted}
use voip.Matcher.Window.Evict.{Added, add-Added, Rolled, evict-Rolled}
use voip.Matcher.Window.Accept.{AllDisjoint, accept-AllDisjoint, accept-add_again}
use voip.Matcher.Phrases.{Tier, Anchor, How, Phrase, Match}
use voip.Matcher.Levenshtein.{levenshtein}
use voip.Matcher.Levenshtein.Reference.{edit_distance}
use voip.Matcher.Levenshtein.Correct.{levenshtein-eq-min}
use voip.Prelude.{join}
use voip.Matcher.Spans.{review_for, kill_for, FloatOps, Thresholds, score_seq, score_brand}
use voip.Matcher.Spans.Sound.{Justified, score-Justified}
use voip.Matcher.Select.{select}
use voip.Matcher.Select.Chosen.{Selected, select-Selected}
use voip.Matcher.Index.{
  build_index, triggers_of, positions, or_rarest, distinctive, unique, is_distinctive, is_stopword,
  document_frequency,
}
use voip.Matcher.Index.Wakes.{build_index_wakes}
use voip.Matcher.Scan.{Corpus, match, raw_of}
use voip.Matcher.Scan.Complete.{Found, raw_of-Found}
use voip.Matcher.Scan.Sound.{Reported, match-Reported}

pub leb_trans : (a b c : ℕ) → leb a b ≡ true → leb b c ≡ true → leb a c ≡ true
leb_trans a b c p q = ground (arith, leb→le a b p, leb→le b c q)

pub leb_total : (a b : ℕ) → leb a b ≡ false → leb b a ≡ true
leb_total a b p = ground (arith, p)

abbrev pub hundredths : FloatOps
hundredths = record {
  Float = ℕ;
  leb = leb;
  leb_trans = leb_trans;
  leb_total = leb_total;
  zero_float = 0;
  one_float = 100;
  tiny = 1;
  add_float = λ a b. a + b;
  sub_float = λ a b. a - b;
  ratio = λ d n. 100 * d / n;
  ceil_mul = λ n x. (n * x + 99) / 100;
}

-- The defaults of Thresholds.
abbrev pub defaults : Thresholds ℕ
defaults = record {
  kill = 86;
  review = 72;
  pair_kill = 92;
  pair_review = 80;
  edit_ratio = 20;
  brand_span = 3;
}

abbrev pub any_desk : Phrase
any_desk = record {
  tier = Tier.a;
  category = "A1";
  lang = "en";
  anchor = Anchor.brand;
  text = codes "any desk";
  notes = [];
  row = 2;
  tokens = codes "any" ∷ codes "desk" ∷ [];
  joined = codes "any desk";
  pkey = codes "ANTSK";
  triggers = [];
}

abbrev your_bank : Phrase
your_bank = record {
  tier = Tier.a;
  category = "A4";
  lang = "en";
  anchor = Anchor.seq;
  text = codes "your bank";
  notes = [];
  row = 3;
  tokens = codes "your" ∷ codes "bank" ∷ [];
  joined = codes "your bank";
  pkey = [];
  triggers = [];
}

abbrev heard : List Text
heard = codes "open" ∷ codes "any" ∷ codes "desk" ∷ []

abbrev pub corpus : Corpus
corpus = record {
  phrases = any_desk ∷ your_bank ∷ [];
  by_index = build_index (any_desk ∷ your_bank ∷ []);
  max_span = 3;
}

abbrev pub hit_at : ℕ → ℕ → Match ℕ
hit_at start stop = record {
  phrase = any_desk;
  tier = Tier.a;
  score = 100;
  start = start;
  stop = stop;
  span = codes "any desk";
  how = How.exact;
}

levenshtein-eq-min_example :
    levenshtein (codes "kitten") (codes "sitting") 5
    ≡ min (edit_distance (codes "kitten") (codes "sitting")) (5 + 1)
levenshtein-eq-min_example = levenshtein-eq-min (codes "kitten") (codes "sitting") 5

match-Reported_example :
    All (Reported hundredths defaults heard 0) (match hundredths defaults corpus heard 0 false)
match-Reported_example = match-Reported hundredths defaults corpus heard 0

select-Selected_example :
    Selected hundredths
      (hit_at 1 3 ∷ hit_at 2 4 ∷ [])
      (select hundredths false (hit_at 1 3 ∷ hit_at 2 4 ∷ []))
select-Selected_example = select-Selected hundredths (hit_at 1 3 ∷ hit_at 2 4 ∷ [])

score-Justified_example :
    Justified hundredths defaults any_desk heard (score_seq hundredths defaults any_desk heard).1
    × Justified hundredths defaults any_desk heard
        (score_brand hundredths defaults any_desk heard).1
score-Justified_example = score-Justified hundredths defaults any_desk heard

abbrev pub new_window : Window ℕ
new_window = record {
  window_s = 90;
  context_words = 10;
  max_tokens = 4;
  tokens = [];
  times = [];
  dropped = 0;
  hits = [];
  reported = [];
  fired_categories = [];
  b_events = 0;
}

new_window-Tracks : Tracks new_window [] []
new_window-Tracks = record {
  tokens = refl;
  times = refl;
  bound = omega arith;
  paired = refl;
  ordered = λ i j le lt. absurd (omega (arith, lt));
}

add-Added_example :
    Added new_window [] []
      (normalize (codes "open any desk"))
      7
      (add new_window (codes "open any desk") 7)
add-Added_example =
    add-Added new_window [] [] (codes "open any desk") 7 new_window-Tracks
      (λ i lt. absurd (omega (arith, lt)))

abbrev old_window : Window ℕ
old_window = record {
  window_s = 90;
  context_words = 10;
  max_tokens = 4;
  tokens = heard;
  times = 7 ∷ 7 ∷ 7 ∷ [];
  dropped = 0;
  hits = [];
  reported = [];
  fired_categories = [];
  b_events = 0;
}

sevens-IsSorted : IsSorted (7 ∷ 7 ∷ 7 ∷ [])
sevens-IsSorted =
    append-IsSorted [] 3 7 (λ i j le lt. absurd (omega (arith, lt)))
      (λ i lt. absurd (omega (arith, lt)))

evict-Rolled_example : Rolled old_window 200 (evict old_window 200)
evict-Rolled_example = evict-Rolled old_window heard (7 ∷ 7 ∷ 7 ∷ []) 200 (record {
  tokens = refl;
  times = refl;
  bound = omega arith;
  paired = refl;
  ordered = sevens-IsSorted;
})

accepted : accept old_window (hit_at 1 3) ≡ ((accept old_window (hit_at 1 3)).0, true)
unfolding accept spans_of overlaps Dict.get Dict.put
accepted = refl

dropped_none : (add (accept old_window (hit_at 1 3)).0 (codes "now") 8).0.dropped ≡ 0
unfolding accept add push evict keep_from bisect_left normalize spans_of overlaps Dict.get Dict.put
    forget
dropped_none = refl

accept-add_again_example :
    (accept (add (accept old_window (hit_at 1 3)).0 (codes "now") 8).0 (hit_at 2 4)).1 ≡ false
accept-add_again_example =
    accept-add_again old_window (accept old_window (hit_at 1 3)).0 (hit_at 1 3) (hit_at 2 4)
      (codes "now") 8 accepted refl (omega (arith, dropped_none)) (omega (arith, dropped_none))

accept-AllDisjoint_example :
    AllDisjoint (accept (accept old_window (hit_at 1 3)).0 (hit_at 3 4)).0.reported
accept-AllDisjoint_example =
    accept-AllDisjoint (accept old_window (hit_at 1 3)).0 (hit_at 3 4)
      (accept-AllDisjoint old_window (hit_at 1 3) tt)

is_trigger : member (codes "desk") (triggers_of (any_desk ∷ your_bank ∷ []) your_bank) ≡ false
unfolding triggers_of or_rarest distinctive unique set_add member is_distinctive is_stopword
    document_frequency same_text
is_trigger = refl

bank_is_trigger : member (codes "bank") (triggers_of (any_desk ∷ your_bank ∷ []) your_bank) ≡ true
unfolding triggers_of or_rarest distinctive unique set_add member is_distinctive is_stopword
    document_frequency same_text
bank_is_trigger = refl

build_index_wakes_example :
    member 1 (positions (build_index (any_desk ∷ your_bank ∷ [])) (codes "bank")) ≡ true
build_index_wakes_example =
    build_index_wakes (any_desk ∷ []) [] your_bank (codes "bank") bank_is_trigger

a_not_near : Tier.a ≢ Tier.a_near
a_not_near h = cc

raw_of-Found_example :
    Any
      (Found hundredths defaults any_desk)
      (raw_of hundredths defaults heard 2 (your_bank ∷ any_desk ∷ []))
unfolding join review_for kill_for
raw_of-Found_example =
    raw_of-Found hundredths defaults (codes "open" ∷ []) [] 2 (your_bank ∷ []) [] any_desk
      (omega arith) refl (inr (omega arith)) a_not_near refl refl (omega arith)
