-- ===== src/Matcher/Phrases.antt =====
-- `Phrase` and `Match` of phraseguard/matcher.py. A score is a float in the source: its type is
-- a parameter here.
use voip.Prelude.{ℕ, String, List, Text, Bool, true, false}

-- The tier of a phrase, and the tier that a match reports; only a match has `a_near`.
pub data Tier : Type 0 where
  a a_near b c x : Tier

pub data Anchor : Type 0 where
  brand pair seq : Anchor

pub data How : Type 0 where
  exact edit phonetic : How

pub record Phrase : Type 0 where
  pub tier : Tier
  pub category : String
  pub lang : String
  pub anchor : Anchor
  pub text : Text
  pub notes : Text
  pub row : ℕ
  pub tokens : List Text
  pub joined : Text
  pub pkey : Text
  pub triggers : List Text

-- Token indices: `start` is inclusive, `stop` (the source's `end`) is exclusive.
pub record Match {ℓ} (Score : Type ℓ) : Type ℓ where
  pub phrase : Phrase
  pub tier : Tier
  pub score : Score
  pub start : ℕ
  pub stop : ℕ
  pub span : Text
  pub how : How

unfoldable pub same_tier : Tier → Tier → Bool
same_tier a a = true
same_tier a_near a_near = true
same_tier b b = true
same_tier c c = true
same_tier x x = true
same_tier _ _ = false
