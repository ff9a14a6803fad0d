-- ===== src/Metaphone/Word.antt =====
-- The accessors of `double_metaphone` in phraseguard/metaphone.py: the word in capitals, reads
-- that never fail, and what one round of the loop adds. Reading outside of the word gives "",
-- which is 0 here.
use voip.Prelude.{
  ℕ, ◌+◌, ◌-◌, String, Bool, false, ◌&&◌, ◌||◌, List, [], ◌∷◌, map, ltb, leb, ◌==◌, if◌then◌else◌,
  Text, codes, same_text, take, drop, get_or, length,
}

-- str.upper() of a letter in ASCII; the callers pass normalised text.
unfoldable pub upper_char : ℕ → ℕ
upper_char c = if leb b'a' c && leb c b'z' then c - 32 else c

-- "".join(c for c in word.upper() if "A" <= c <= "Z")
unfoldable pub letters : Text → Text
unfolding upper_char
letters [] = []
letters (c ∷ cs) =
    let rest = letters cs in
    let u = upper_char c in if leb b'A' u && leb u b'Z' then u ∷ rest else rest

unfoldable pub among : ℕ → Text → Bool
among c [] = false
among c (d ∷ ds) = c == d || among c ds

unfoldable pub is_vowel : ℕ → Bool
unfolding among
is_vowel c = among c (codes "AEIOUY")

-- at(i)
unfoldable pub at : Text → ℕ → ℕ
at w i = get_or w i 0

-- at(pos - k)
unfoldable pub before : Text → ℕ → ℕ → ℕ
unfolding at
before w pos k = if ltb pos k then 0 else at w (pos - k)

unfoldable pub any_text : Text → List Text → Bool
any_text t [] = false
any_text t (u ∷ us) = same_text t u || any_text t us

-- string_at(start, slen, cands)
unfoldable pub string_at : Text → ℕ → ℕ → List String → Bool
unfolding any_text same_text
string_at w start slen cands = any_text (take slen (drop start w)) (map codes cands)

-- string_at(pos - k, slen, cands), which is False before the word.
unfoldable pub string_before : Text → ℕ → ℕ → ℕ → List String → Bool
unfolding string_at
string_before w pos k slen cands = if ltb pos k then false else string_at w (pos - k) slen cands

-- s in word
unfoldable pub contains : Text → String → Bool
unfolding same_text
contains [] s = false
contains (c ∷ cs) s = same_text (take (length (codes s)) (c ∷ cs)) (codes s) || contains cs s

unfoldable pub is_slavo : Text → Bool
unfolding contains
is_slavo w = (contains w "W" || contains w "K") || (contains w "CZ" || contains w "WITZ")

-- What one round adds to both codes, and by how much it moves on.
pub record Sound : Type 0 where
  pub primary : Text
  pub secondary : Text
  pub advance : ℕ

-- add(p, s); pos += n
unfoldable pub sound : String → String → ℕ → Sound
sound p s n = record { primary = codes p; secondary = codes s; advance = n }

-- pos += 2 if at(pos + 1) == c else 1
unfoldable pub over : Text → ℕ → ℕ → ℕ
unfolding at
over w pos c = if at w (pos + 1) == c then 2 else 1
