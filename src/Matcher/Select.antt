-- ===== src/Matcher/Select.antt =====
-- The end of `Matcher.match` in phraseguard/matcher.py: the Tier X veto, the suppression of
-- overlaps within a category, and the two sorts.
pub mod Veto
pub mod Chosen
use voip.Prelude.{
  ℕ, ◌+◌, ◌-◌, Bool, true, false, ◌&&◌, ◌||◌, List, [], ◌∷◌, ◌++◌, ltb, leb, ◌==◌, if◌then◌else◌,
  str_eq,
}
use voip.Prelude.Predicates.{sort_by, sort_onto}
use voip.Matcher.Phrases.{Tier, Match, same_tier}
use voip.Matcher.Spans.{FloatOps, less}

module _ {Score : Type 0} where
  unfoldable pub is_veto : Match Score → Bool
  unfolding same_tier
  is_veto m = same_tier m.tier Tier.x

  -- a.start < b.end and b.start < a.end
  unfoldable pub meets : Match Score → Match Score → Bool
  meets a b = ltb a.start b.stop && ltb b.start a.stop

  -- [m for m in raw if m.tier == "X"]
  unfoldable pub vetoes_of : List (Match Score) → List (Match Score)
  vetoes_of [] = []
  vetoes_of (m ∷ ms) = let rest = vetoes_of ms in if is_veto m then m ∷ rest else rest

  unfoldable pub meets_any : List (Match Score) → Match Score → Bool
  unfolding meets
  meets_any [] m = false
  meets_any (v ∷ vs) m = meets v m || meets_any vs m

  -- The loop over raw where there are vetoes.
  unfoldable pub keep_unvetoed : Bool → List (Match Score) → List (Match Score) → List (Match Score)
  keep_unvetoed include vetoes [] = []
  keep_unvetoed include vetoes (m ∷ ms) =
      let rest = keep_unvetoed include vetoes ms in
      if is_veto m
      then (if include then m ∷ rest else rest)
      else if meets_any vetoes m
      then rest
      else m ∷ rest

  unfoldable pub apply_veto : Bool → List (Match Score) → List (Match Score)
  apply_veto include raw = elim (vetoes_of raw) [
    | [] ↦ raw
    | v ∷ vs ↦ keep_unvetoed include (v ∷ vs) raw
  ]

  -- Overlap with a chosen match of the same category.
  unfoldable pub clashes : List (Match Score) → Match Score → Bool
  unfolding meets
  clashes [] m = false
  clashes (o ∷ os) m = (meets o m && str_eq o.phrase.category m.phrase.category) || clashes os m

  unfoldable pub choose : List (Match Score) → List (Match Score) → List (Match Score)
  choose chosen [] = chosen
  choose chosen (m ∷ ms) = choose (if clashes chosen m then chosen else chosen ++ (m ∷ [])) ms

module _ (ops : FloatOps) where
  open ops use {Float}

  -- (-m.score, -(m.end - m.start), m.start, m.phrase.row) in order. Spans are never empty.
  unfoldable pub ranks_before : Match Float → Match Float → Bool
  ranks_before m n =
      let lm = m.stop - m.start in
      let ln = n.stop - n.start in
      if less ops n.score m.score
      then true
      else if less ops m.score n.score
      then false
      else if ltb ln lm
      then true
      else if ltb lm ln
      then false
      else if ltb m.start n.start
      then true
      else if ltb n.start m.start
      then false
      else leb m.phrase.row n.phrase.row

  -- (m.start, -m.score) in order.
  unfoldable pub stands_before : Match Float → Match Float → Bool
  stands_before m n =
      if ltb m.start n.start
      then true
      else if ltb n.start m.start
      then false
      else ops.leb n.score m.score

  unfoldable pub select : Bool → List (Match Float) → List (Match Float)
  select include raw =
      sort_by (stands_before) (choose [] (sort_by ranks_before (apply_veto include raw)))
