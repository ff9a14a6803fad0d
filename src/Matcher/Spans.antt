-- ===== src/Matcher/Spans.antt =====
-- One span against one phrase: `Thresholds`, `all_common`, `_score_seq` and `_score_brand` of
-- phraseguard/matcher.py. Floats and their arithmetic are a parameter; what the code relies on is
-- that they are totally ordered, which holds as no score is a NaN.
pub mod Sound
use voip.Prelude.{
  ℕ, ◌+◌, max, ◌≡◌, ◌⊎◌, String, Bool, true, false, ◌&&◌, not, List, [], ◌∷◌, map, Option, none,
  some, ltb, if◌then◌else◌, length, Text, codes, same_text, join, member, Text-eq,
}
use voip.Matcher.Levenshtein.{levenshtein}
use voip.Matcher.Phrases.{Anchor, How, Phrase}
use voip.Metaphone.Loop.{phonetic_equal}

pub record FloatOps : Type 1 where
  pub Float : Type 0
  -- a <= b
  pub leb : Float → Float → Bool
  pub leb_trans : (a b c : Float) → leb a b ≡ true → leb b c ≡ true → leb a c ≡ true
  pub leb_total : (a b : Float) → leb a b ≡ false → leb b a ≡ true
  pub zero_float : Float
  pub one_float : Float
  -- 1e-9
  pub tiny : Float
  pub add_float : Float → Float → Float
  pub sub_float : Float → Float → Float
  -- float(d) / n
  pub ratio : ℕ → ℕ → Float
  -- int(math.ceil(n * x))
  pub ceil_mul : ℕ → Float → ℕ

pub record Thresholds (Float : Type 0) : Type 0 where
  pub kill : Float
  pub review : Float
  pub pair_kill : Float
  pub pair_review : Float
  pub edit_ratio : Float
  pub brand_span : ℕ

-- COMMON_WORDS
abbrev pub common_words : List String
common_words =
    "a" ∷ "about" ∷ "after" ∷ "all" ∷ "also" ∷ "am" ∷ "an" ∷ "and" ∷ "any" ∷ "are" ∷ "as" ∷ "ask"
    ∷ "at" ∷ "back" ∷ "be" ∷ "been" ∷ "before" ∷ "being" ∷ "best" ∷ "but" ∷ "buy" ∷ "by" ∷ "call"
    ∷ "called" ∷ "calling" ∷ "can" ∷ "come" ∷ "could" ∷ "day" ∷ "did" ∷ "do" ∷ "does" ∷ "doing"
    ∷ "done" ∷ "down" ∷ "each" ∷ "end" ∷ "even" ∷ "for" ∷ "from" ∷ "get" ∷ "give" ∷ "go" ∷ "going"
    ∷ "good" ∷ "got" ∷ "had" ∷ "has" ∷ "have" ∷ "he" ∷ "her" ∷ "here" ∷ "him" ∷ "his" ∷ "how" ∷ "i"
    ∷ "if" ∷ "in" ∷ "into" ∷ "is" ∷ "it" ∷ "its" ∷ "just" ∷ "know" ∷ "last" ∷ "let" ∷ "like"
    ∷ "little" ∷ "long" ∷ "look" ∷ "made" ∷ "make" ∷ "man" ∷ "many" ∷ "may" ∷ "me" ∷ "more" ∷ "most"
    ∷ "my" ∷ "need" ∷ "new" ∷ "no" ∷ "not" ∷ "now" ∷ "number" ∷ "of" ∷ "off" ∷ "often" ∷ "on"
    ∷ "once" ∷ "one" ∷ "only" ∷ "or" ∷ "other" ∷ "our" ∷ "out" ∷ "over" ∷ "own" ∷ "people" ∷ "place"
    ∷ "put" ∷ "said" ∷ "same" ∷ "say" ∷ "see" ∷ "she" ∷ "should" ∷ "since" ∷ "so" ∷ "some" ∷ "take"
    ∷ "talk" ∷ "tell" ∷ "than" ∷ "that" ∷ "the" ∷ "their" ∷ "them" ∷ "then" ∷ "there" ∷ "these"
    ∷ "they" ∷ "thing" ∷ "think" ∷ "this" ∷ "those" ∷ "three" ∷ "time" ∷ "to" ∷ "today" ∷ "too"
    ∷ "two" ∷ "up" ∷ "us" ∷ "use" ∷ "very" ∷ "want" ∷ "was" ∷ "way" ∷ "we" ∷ "well" ∷ "went"
    ∷ "were" ∷ "what" ∷ "when" ∷ "where" ∷ "which" ∷ "while" ∷ "who" ∷ "why" ∷ "will" ∷ "with"
    ∷ "would" ∷ "year" ∷ "yes" ∷ "you" ∷ "your" ∷ []

unfoldable pub is_common : Text → Bool
is_common t = member t (map codes common_words)

-- all(t in COMMON_WORDS for t in tokens)
unfoldable pub every_common : List Text → Bool
every_common [] = true
every_common (t ∷ ts) = is_common t && every_common ts

unfoldable pub all_common : List Text → Bool
unfolding every_common
all_common [] = false
all_common (t ∷ ts) = every_common (t ∷ ts)

module _ (ops : FloatOps) where
  open ops use {Float, leb, zero_float, one_float, tiny, add_float, sub_float, ratio, ceil_mul}

  -- a < b
  unfoldable pub less : Float → Float → Bool
  less a b = not (leb b a)

  -- min(a, b) and max(a, b), which keep `a` unless `b` is strictly better.
  unfoldable pub min_float : Float → Float → Float
  unfolding less
  min_float a b = if less b a then b else a

  unfoldable pub max_float : Float → Float → Float
  unfolding less
  max_float a b = if less a b then b else a

  unfoldable pub kill_for : Thresholds Float → Anchor → Float
  kill_for th Anchor.pair = th.pair_kill
  kill_for th _ = th.kill

  unfoldable pub review_for : Thresholds Float → Anchor → Float
  review_for th Anchor.pair = th.pair_review
  review_for th _ = th.review

  unfoldable pub edit_budget : Thresholds Float → Text → ℕ
  edit_budget th target = max 1 (ceil_mul (length target) th.edit_ratio)

  -- The score of a span and how it matched; `none` is no match.
  unfoldable pub score_seq : Thresholds Float → Phrase → List Text → Float × Option How
  score_seq th p span =
      let target = p.joined in
      let cand = join span in
      let budget = edit_budget th target in
      let d = levenshtein target cand budget in
      if same_text cand target
      then (one_float, some How.exact)
      else if ltb budget d
      then (zero_float, none)
      else (max_float zero_float (sub_float one_float (ratio d (length target))), some How.edit)

  -- `if how and s > 0`: a near brand scores just above the review line at most.
  unfoldable pub near_brand : Thresholds Float → Phrase → Float × Option How → Float × Option How
  near_brand th p (s, none) = (zero_float, none)
  near_brand th p (s, some how) =
      if less zero_float s
      then (min_float s (add_float (review_for th p.anchor) tiny), some how)
      else (zero_float, none)

  unfoldable pub score_brand : Thresholds Float → Phrase → List Text → Float × Option How
  score_brand th p span =
      let cand = join span in
      if same_text cand p.joined
      then (one_float, some How.exact)
      else if all_common span
      then (zero_float, none)
      else if phonetic_equal cand p.joined
      then (one_float, some How.phonetic)
      else near_brand th p (score_seq th p span)
