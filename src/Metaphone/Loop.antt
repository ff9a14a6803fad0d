-- ===== src/Metaphone/Loop.antt =====
-- `double_metaphone`, `phonetic_key` and `phonetic_equal` of phraseguard/metaphone.py. One round
-- moves on by one letter at least, so as many rounds as the word has letters are enough.
use voip.Prelude.{
  ℕ, zero, suc, ◌+◌, Bool, true, false, ◌&&◌, ◌||◌, not, [], ◌∷◌, ◌++◌, ltb, ◌==◌, if◌then◌else◌,
  Text, codes, length, same_text,
}
use voip.Metaphone.Word.{letters, is_vowel, at, string_at, is_slavo, Sound, sound}
use voip.Metaphone.Consonants.{
  rule_b, rule_d, rule_f, rule_h, rule_j, rule_k, rule_l, rule_m, rule_n, rule_p, rule_q, rule_r,
  rule_t, rule_v, rule_w, rule_x, rule_z,
}
use voip.Metaphone.Clusters.{rule_c, rule_g, rule_s}

-- The second half of the chain of tests on ch.
unfoldable pub rule_from_m : Text → Bool → ℕ → ℕ → Sound
rule_from_m w slavo pos ch =
    if ch == b'M'
    then rule_m w pos
    else if ch == b'N'
    then rule_n w pos
    else if ch == b'P'
    then rule_p w pos
    else if ch == b'Q'
    then rule_q w pos
    else if ch == b'R'
    then rule_r w slavo pos
    else if ch == b'S'
    then rule_s w slavo pos
    else if ch == b'T'
    then rule_t w pos
    else if ch == b'V'
    then rule_v w pos
    else if ch == b'W'
    then rule_w w pos
    else if ch == b'X'
    then rule_x w pos
    else if ch == b'Z'
    then rule_z w slavo pos
    else sound "" "" 1

-- The chain of tests on ch.
unfoldable pub rule : Text → Bool → ℕ → ℕ → Sound
rule w slavo pos ch =
    if is_vowel ch
    then (if pos == 0 then sound "A" "A" 1 else sound "" "" 1)
    else if ch == b'B'
    then rule_b w pos
    else if ch == b'C'
    then rule_c w pos
    else if ch == b'D'
    then rule_d w pos
    else if ch == b'F'
    then rule_f w pos
    else if ch == b'G'
    then rule_g w slavo pos
    else if ch == b'H'
    then rule_h w pos
    else if ch == b'J'
    then rule_j w slavo pos
    else if ch == b'K'
    then rule_k w pos
    else if ch == b'L'
    then rule_l w pos
    else rule_from_m w slavo pos ch

-- while pos < length; `fuel` bounds the rounds.
unfoldable pub rounds : ℕ → Text → Bool → ℕ → Text → Text → Text × Text
rounds zero w slavo pos p s = (p, s)
rounds (suc fuel) w slavo pos p s =
    let step = rule w slavo pos (at w pos) in
    let rest = rounds fuel w slavo (pos + step.advance) (p ++ step.primary) (s ++ step.secondary) in
    if ltb pos (length w) then rest else (p, s)

-- The silent first letters, and the initial X that is pronounced S.
unfoldable pub start_at : Text → ℕ
start_at w =
    if string_at w 0 2 ("GN" ∷ "KN" ∷ "PN" ∷ "WR" ∷ "PS" ∷ []) || at w 0 == b'X' then 1 else 0

unfoldable pub opening : Text → Text
opening w = if at w 0 == b'X' then codes "S" else []

-- After the word is cleaned; there is no code for an empty word.
unfoldable pub code_word : Text → Text × Text
code_word [] = ([], [])
code_word (c ∷ cs) =
    let w = c ∷ cs in rounds (length w) w (is_slavo w) (start_at w) (opening w) (opening w)

unfoldable pub double_metaphone : Text → Text × Text
double_metaphone word = code_word (letters word)

-- "".join(text.split()): the blanks of a text are dropped.
unfoldable pub squeeze : Text → Text
squeeze [] = []
squeeze (c ∷ cs) =
    let rest = squeeze cs in if c == 32 || (ltb 8 c && ltb c 14) then rest else c ∷ rest

unfoldable pub phonetic_key : Text → Text
phonetic_key text = (double_metaphone (squeeze text)).0

unfoldable pub is_empty : Text → Bool
is_empty [] = true
is_empty (c ∷ cs) = false

-- `phonetic_equal` on the two codes of each text.
unfoldable pub equal_codes : Text × Text → Text × Text → Bool
equal_codes (a1, a2) (b1, b2) =
    if is_empty a1 || is_empty b1
    then false
    else (same_text a1 b1 || same_text a1 b2)
      || (same_text a2 b1 || (not (is_empty a2) && same_text a2 b2))

-- True if two texts share either code.
unfoldable pub phonetic_equal : Text → Text → Bool
phonetic_equal a b = equal_codes (double_metaphone (squeeze a)) (double_metaphone (squeeze b))
