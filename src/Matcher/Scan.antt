-- ===== src/Matcher/Scan.antt =====
-- `Matcher.match` of phraseguard/matcher.py up to the veto: the phrases that the tokens wake, the
-- best span of each, and the tier it earns.
pub mod Sound
pub mod Complete
use voip.Prelude.{
  ℕ, suc, ◌+◌, ◌-◌, max, Bool, true, false, List, [], ◌∷◌, ◌++◌, Option, none, some, if◌then◌else◌,
  length, take, drop, Text, join, member, union, ℕ-eq,
}
use voip.Matcher.Phrases.{Tier, Anchor, How, Phrase, Match}
use voip.Matcher.Levenshtein.{range}
use voip.Matcher.Index.{Index, positions}
use voip.Matcher.Spans.{FloatOps, Thresholds, less, kill_for, review_for, score_seq, score_brand}
use voip.Matcher.Select.{select}
use voip.Metaphone.Loop.{phonetic_key, is_empty}

-- The part of `Corpus` that a match reads.
pub record Corpus : Type 0 where
  pub phrases : List Phrase
  pub by_index : Index
  pub max_span : ℕ

-- wake: the positions that the tokens look up, as themselves and by their sound.
unfoldable pub wake_of : Index → List Text → List ℕ
wake_of index [] = []
wake_of index (t ∷ ts) =
    let rest = wake_of index ts in
    let pk = phonetic_key t in
    let heard = if is_empty pk then rest else union (positions index (126 ∷ pk)) rest in
    union (positions index t) heard

-- The phrases at the positions of `wake`, in the order of sorted(wake).
unfoldable pub woken : List ℕ → ℕ → List Phrase → List Phrase
woken wake pos [] = []
woken wake pos (p ∷ ps) =
    let rest = woken wake (suc pos) ps in if member pos wake then p ∷ rest else rest

-- The first index that is scanned.
unfoldable pub scan_from : Corpus → ℕ → ℕ
scan_from corpus since = since - corpus.max_span

-- The best span so far: (score, s, s + w, how).
pub record Candidate (Float : Type 0) : Type 0 where
  pub score : Float
  pub start : ℕ
  pub stop : ℕ
  pub how : How

-- range(max(1, plen - 1), plen + 2)
unfoldable pub near_widths : ℕ → List ℕ
near_widths plen = let lo = max 1 (plen - 1) in range (plen + 2 - lo) lo

-- range(first_start, n - w + 1), the starts of the spans of `w` tokens that end after `since`.
-- `suc since - w` is max(0, since - w + 1); where n - w + 1 is not positive, the range is empty.
unfoldable pub starts : ℕ → ℕ → ℕ → List ℕ
starts n since w = let first = suc since - w in range (suc n - w - first) first

module _ (ops : FloatOps) (th : Thresholds (FloatOps.Float ops)) where
  open ops use {Float, leb}

  unfoldable pub widths : Phrase → List ℕ
  widths p = elim p.anchor [
    | Anchor.brand ↦ range th.brand_span 1
    | Anchor.pair ↦ near_widths (length p.tokens)
    | Anchor.seq ↦ near_widths (length p.tokens)
  ]

  unfoldable pub score_span : Phrase → List Text → Float × Option How
  score_span p span = elim p.anchor [
    | Anchor.brand ↦ score_brand ops th p span
    | Anchor.pair ↦ score_seq ops th p span
    | Anchor.seq ↦ score_seq ops th p span
  ]

  -- if best is None or score > best[0]
  unfoldable pub better : Candidate Float → Option (Candidate Float) → Candidate Float
  better new none = new
  better new (some best) = if less ops best.score new.score then new else best

  -- One scored span; a span that does not match leaves the best one alone.
  unfoldable pub consider :
      ℕ → ℕ → Float × Option How → Option (Candidate Float) → Option (Candidate Float)
  consider w s (score, none) best = best
  consider w s (score, some how) best =
      some (better (record { score = score; start = s; stop = s + w; how = how }) best)

  -- for s in the starts
  unfoldable pub scan_starts :
      Phrase → List Text → ℕ → List ℕ → Option (Candidate Float) → Option (Candidate Float)
  scan_starts p tokens w [] best = best
  scan_starts p tokens w (s ∷ ss) best =
      scan_starts p tokens w ss (consider w s (score_span p (take w (drop s tokens))) best)

  -- for w in widths
  unfoldable pub scan_widths :
      Phrase → List Text → ℕ → List ℕ → Option (Candidate Float) → Option (Candidate Float)
  scan_widths p tokens since [] best = best
  scan_widths p tokens since (w ∷ ws) best =
      scan_widths p tokens since ws (scan_starts p tokens w (starts (length tokens) since w) best)

  -- B, C and X have no near band.
  unfoldable pub at_kill : Phrase → Float → Option Tier
  at_kill p score = if less ops score (kill_for ops th p.anchor) then none else some p.tier

  -- The tier of a match whose score is at the review line or above.
  unfoldable pub tier_of : Phrase → Float → Tier → Option Tier
  tier_of p score Tier.a =
      some (if leb (kill_for ops th p.anchor) score then Tier.a else Tier.a_near)
  tier_of p score Tier.a_near = none
  tier_of p score _ = at_kill p score

  unfoldable pub grade : Phrase → Float → Option Tier
  grade p score =
      if less ops score (review_for ops th p.anchor) then none else tier_of p score p.tier

  unfoldable pub report : Phrase → List Text → Candidate Float → Option Tier → List (Match Float)
  report p tokens best none = []
  report p tokens best (some tier) =
      record {
        phrase = p;
        tier = tier;
        score = best.score;
        start = best.start;
        stop = best.stop;
        span = join (take (best.stop - best.start) (drop best.start tokens));
        how = best.how;
      }
      ∷ []

  unfoldable pub report_best : Phrase → List Text → Option (Candidate Float) → List (Match Float)
  report_best p tokens none = []
  report_best p tokens (some best) = report p tokens best (grade p best.score)

  -- The raw matches of the phrases, in their order.
  unfoldable pub raw_of : List Text → ℕ → List Phrase → List (Match Float)
  raw_of tokens since [] = []
  raw_of tokens since (p ∷ ps) =
      report_best p tokens (scan_widths p tokens since (widths p) none) ++ raw_of tokens since ps

  unfoldable pub raw_matches : Corpus → List Text → ℕ → List (Match Float)
  raw_matches corpus tokens since =
      let wake = wake_of corpus.by_index (drop (scan_from corpus since) tokens) in
      raw_of tokens since (woken wake 0 corpus.phrases)

  unfoldable pub match : Corpus → List Text → ℕ → Bool → List (Match Float)
  match corpus tokens since include = select ops include (raw_matches corpus tokens since)
