-- ===== src/Matcher/Window.antt =====
-- `CallWindow` of phraseguard/matcher.py: the rolling transcript window of one call. Times are
-- natural numbers of one fixed unit.
pub mod Bisect
pub mod Stream
pub mod Evict
pub mod Accept
use voip.Prelude.{
  ℕ, zero, suc, ◌+◌, ◌-◌, ◌/◌, min, String, Bool, true, false, ◌&&◌, ◌||◌, List, [], ◌∷◌, ◌++◌, map,
  Option, none, some, ltb, leb, ◌==◌, if◌then◌else◌, length, get_or, take, drop, replicate, Text,
  join, Eq, ℕ-eq, String-eq, set_add, intersection,
}
use voip.Prelude.Dict
use voip.Matcher.Normalize.{normalize}
use voip.Matcher.Phrases.{Tier, Match, same_tier}

-- A reported span, in absolute token coordinates.
pub record Span : Type 0 where
  pub start : ℕ
  pub stop : ℕ

pub record Hit {ℓ} (Score : Type ℓ) : Type ℓ where
  pub ts : ℕ
  pub tier : Tier
  pub category : String
  pub text : Text
  pub score : Score

pub record Window {ℓ} (Score : Type ℓ) : Type ℓ where
  pub window_s : ℕ
  pub context_words : ℕ
  pub max_tokens : ℕ
  pub tokens : List Text
  pub times : List ℕ
  pub dropped : ℕ
  pub hits : List (Hit Score)
  pub reported : List (ℕ × List Span)
  pub fired_categories : List String
  pub b_events : ℕ

-- bisect.bisect_left(xs, x, lo, hi)
unfoldable pub bisect_left : ℕ → List ℕ → ℕ → ℕ → ℕ → ℕ
bisect_left zero xs x lo hi = lo
bisect_left (suc fuel) xs x lo hi =
    let mid = (lo + hi) / 2 in
    let right = bisect_left fuel xs x (mid + 1) hi in
    let left = bisect_left fuel xs x lo mid in
    if ltb lo hi then (if ltb (get_or xs mid 0) x then right else left) else lo

unfoldable pub overlaps : ℕ → ℕ → List Span → Bool
overlaps a0 a1 [] = false
overlaps a0 a1 (s ∷ spans) = (ltb s.start a1 && ltb a0 s.stop) || overlaps a0 a1 spans

-- [s for s in spans if s[1] > dropped]
unfoldable pub live_spans : ℕ → List Span → List Span
live_spans dropped [] = []
live_spans dropped (s ∷ spans) =
    let rest = live_spans dropped spans in if ltb dropped s.stop then s ∷ rest else rest

-- `if spans: self.reported[row] = spans`, `else: del self.reported[row]`
unfoldable pub keep_row : ℕ → List Span → List (ℕ × List Span) → List (ℕ × List Span)
keep_row row [] others = others
keep_row row (s ∷ spans) others = (row, s ∷ spans) ∷ others

-- The loop over `reported`: a row that has no live span left is deleted.
unfoldable pub forget : ℕ → List (ℕ × List Span) → List (ℕ × List Span)
unfolding live_spans keep_row
forget dropped [] = []
forget dropped ((row, spans) ∷ rest) = keep_row row (live_spans dropped spans) (forget dropped rest)

-- reported.get(row), where a missing row has no spans
unfoldable pub spans_of : ℕ → List (ℕ × List Span) → List Span
unfolding Dict.get
spans_of row reported = elim (Dict.get row reported) [ none ↦ [] | some spans ↦ spans ]

module _ {ℓ} {Score : Type ℓ} where
  -- [h for h in hits if h[0] >= cutoff]
  unfoldable pub recent_hits : ℕ → List (Hit Score) → List (Hit Score)
  recent_hits cutoff [] = []
  recent_hits cutoff (h ∷ hs) =
      let rest = recent_hits cutoff hs in if leb cutoff h.ts then h ∷ rest else rest

  -- {h[2] for h in hits}
  unfoldable pub hit_categories : List (Hit Score) → List String
  hit_categories [] = []
  hit_categories (h ∷ hs) = set_add h.category (hit_categories hs)

  -- "A-near" in {h[1] for h in hits}
  unfoldable pub has_near : List (Hit Score) → Bool
  has_near [] = false
  has_near (h ∷ hs) = same_tier h.tier Tier.a_near || has_near hs

  unfoldable pub live_categories : List (Hit Score) → List String
  unfolding hit_categories has_near
  live_categories hs =
      if has_near hs then set_add "A-near" (hit_categories hs) else hit_categories hs

  -- The count of tokens that `_evict` drops.
  unfoldable pub keep_from : Window Score → ℕ → ℕ
  unfolding bisect_left
  keep_from w now =
      let n = length w.tokens in
      let keep = bisect_left (length w.times) w.times (now - w.window_s) 0 (length w.times) in
      if ltb w.max_tokens (n - keep) then n - w.max_tokens else keep

  unfoldable pub evict : Window Score → ℕ → Window Score
  unfolding keep_from forget recent_hits live_categories
  evict w now =
      let keep = keep_from w now in
      let dropped = w.dropped + keep in
      let hits = recent_hits (now - w.window_s) w.hits in
      let moved =
        if ltb 0 keep
        then record w {
          tokens = drop keep w.tokens;
          times = drop keep w.times;
          dropped = dropped;
          reported = forget dropped w.reported;
        }
        else w in
      record moved {
        hits = hits;
        fired_categories = intersection w.fired_categories (live_categories hits);
      }

  -- `add` after `normalize`: the tokens are put behind, and the window rolls.
  unfoldable pub push : Window Score → List Text → ℕ → Window Score × ℕ
  push w [] now = (w, length w.tokens)
  push w (t ∷ ts) now =
      let new = t ∷ ts in
      let first = length w.tokens in
      let w' = record w {
        tokens = w.tokens ++ new;
        times = w.times ++ replicate (length new) now;
      } in
      let w'' = evict w' now in (w'', first - (w''.dropped - w.dropped))

  -- Returns the index of the first new token.
  unfoldable pub add : Window Score → Text → ℕ → Window Score × ℕ
  add w text now = push w (normalize text) now

  -- True if the match is new.
  unfoldable pub accept : Window Score → Match Score → Window Score × Bool
  accept w m =
      let a0 = w.dropped + m.start in
      let a1 = w.dropped + m.stop in
      let row = m.phrase.row in
      let spans = spans_of row w.reported in
      let noted : Span = record { start = a0; stop = a1 } in
      if overlaps a0 a1 spans
      then (w, false)
      else (record w { reported = Dict.put row (spans ++ (noted ∷ [])) w.reported }, true)

  unfoldable pub context : Window Score → Match Score → Text
  context w m =
      let lo = m.start - w.context_words in
      let hi = min (length w.tokens) (m.stop + w.context_words) in join (drop lo (take hi w.tokens))

  unfoldable pub note_hit : Window Score → Match Score → ℕ → Window Score
  note_hit w m now = record w {
    hits =
        w.hits
        ++ (record {
          ts = now;
          tier = m.tier;
          category = m.phrase.category;
          text = m.phrase.text;
          score = m.score;
        }
            ∷ []);
  }
