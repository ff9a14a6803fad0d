-- ===== src/Metaphone/Consonants.antt =====
-- The rules of `double_metaphone` for the consonants with few cases.
use voip.Prelude.{
  ℕ, ◌+◌, ◌-◌, Bool, ◌&&◌, ◌||◌, not, [], ◌∷◌, ltb, ◌==◌, if◌then◌else◌, Text, codes, length,
}
use voip.Metaphone.Word.{among, is_vowel, at, before, string_at, string_before, Sound, sound, over}

unfoldable pub rule_b : Text → ℕ → Sound
rule_b w pos = sound "P" "P" (over w pos b'B')

unfoldable pub rule_d : Text → ℕ → Sound
rule_d w pos =
    if string_at w pos 2 ("DG" ∷ [])
    then (if string_at w (pos + 2) 1 ("I" ∷ "E" ∷ "Y" ∷ [])
        then sound "J" "J" 3
        else sound "TK" "TK" 2)
    else if string_at w pos 2 ("DT" ∷ "DD" ∷ [])
    then sound "T" "T" 2
    else sound "T" "T" 1

unfoldable pub rule_f : Text → ℕ → Sound
rule_f w pos = sound "F" "F" (over w pos b'F')

-- Only pronounced between two vowels, or word-initially.
unfoldable pub rule_h : Text → ℕ → Sound
rule_h w pos =
    if (pos == 0 || is_vowel (before w pos 1)) && is_vowel (at w (pos + 1))
    then sound "H" "H" 2
    else sound "" "" 1

-- The first branch moves on by one before the common last line moves on again.
unfoldable pub rule_j : Text → Bool → ℕ → Sound
rule_j w slavo pos =
    let jose = string_at w pos 4 ("JOSE" ∷ []) in
    let san = string_at w 0 4 ("SAN " ∷ []) in
    if jose || san
    then (if (pos == 0 && at w (pos + 4) == 32) || san
        then sound "H" "H" (1 + over w (pos + 1) b'J')
        else sound "J" "H" (1 + over w (pos + 1) b'J'))
    else if pos == 0 && not jose
    then sound "J" "A" (over w pos b'J')
    else if (is_vowel (before w pos 1) && not slavo) && among (at w (pos + 1)) (codes "AO")
    then sound "J" "H" 1
    else if pos == length w - 1
    then sound "J" "" 1
    else if not (among (at w (pos + 1)) (codes "LTKSNMBZ"))
        && not (among (before w pos 1) (codes "SKL"))
    then sound "J" "J" 1
    else sound "" "" 1

unfoldable pub rule_k : Text → ℕ → Sound
rule_k w pos = sound "K" "K" (over w pos b'K')

-- -LLO and -LLA are silent in the alternate reading.
unfoldable pub rule_l : Text → ℕ → Sound
rule_l w pos =
    let n = length w in
    if at w (pos + 1) == b'L'
    then (if (pos + 3 == n && string_before w pos 1 4 ("ILLO" ∷ "ILLA" ∷ "ALLE" ∷ []))
          || ((string_before w (n - 1) 1 2 ("AS" ∷ "OS" ∷ [])
                || string_at w (n - 1) 1 ("A" ∷ "O" ∷ []))
              && string_before w pos 1 4 ("ALLE" ∷ []))
        then sound "L" "" 2
        else sound "L" "L" 2)
    else sound "L" "L" 1

unfoldable pub rule_m : Text → ℕ → Sound
rule_m w pos =
    if (string_before w pos 1 3 ("UMB" ∷ [])
        && (pos + 2 == length w || string_at w (pos + 2) 2 ("ER" ∷ [])))
      || at w (pos + 1) == b'M'
    then sound "M" "M" 2
    else sound "M" "M" 1

unfoldable pub rule_n : Text → ℕ → Sound
rule_n w pos = sound "N" "N" (over w pos b'N')

unfoldable pub rule_p : Text → ℕ → Sound
rule_p w pos =
    if at w (pos + 1) == b'H'
    then sound "F" "F" 2
    else if among (at w (pos + 1)) (codes "PB")
    then sound "P" "P" 2
    else sound "P" "P" 1

unfoldable pub rule_q : Text → ℕ → Sound
rule_q w pos = sound "K" "K" (over w pos b'Q')

-- Word-final -IER is silent, unless the word looks Slavo-Germanic or ends -MEIER or -MAIER.
unfoldable pub rule_r : Text → Bool → ℕ → Sound
rule_r w slavo pos =
    if ((pos + 1 == length w && not slavo) && string_before w pos 2 2 ("IE" ∷ []))
      && not (string_before w pos 4 2 ("ME" ∷ "MA" ∷ []))
    then sound "" "R" (over w pos b'R')
    else sound "R" "R" (over w pos b'R')

unfoldable pub rule_t : Text → ℕ → Sound
rule_t w pos =
    if string_at w pos 4 ("TION" ∷ [])
    then sound "X" "X" 3
    else if string_at w pos 3 ("TIA" ∷ "TCH" ∷ [])
    then sound "X" "X" 3
    else if string_at w pos 2 ("TH" ∷ []) || string_at w pos 3 ("TTH" ∷ [])
    then (if (string_at w (pos + 2) 2 ("OM" ∷ "AM" ∷ []) || string_at w 0 4 ("VAN " ∷ "VON " ∷ []))
          || string_at w 0 3 ("SCH" ∷ [])
        then sound "T" "T" 2
        else sound "0" "T" 2)
    else if among (at w (pos + 1)) (codes "TD")
    then sound "T" "T" 2
    else sound "T" "T" 1

unfoldable pub rule_v : Text → ℕ → Sound
rule_v w pos = sound "F" "F" (over w pos b'V')

unfoldable pub rule_w : Text → ℕ → Sound
rule_w w pos =
    if string_at w pos 2 ("WR" ∷ [])
    then sound "R" "R" 2
    else if pos == 0 && (is_vowel (at w (pos + 1)) || string_at w pos 2 ("WH" ∷ []))
    then (if is_vowel (at w (pos + 1)) then sound "A" "F" 1 else sound "A" "A" 1)
    else if ((pos + 1 == length w && is_vowel (before w pos 1))
          || string_before w pos 1 5 ("EWSKI" ∷ "EWSKY" ∷ "OWSKI" ∷ "OWSKY" ∷ []))
        || string_at w 0 3 ("SCH" ∷ [])
    then sound "" "F" 1
    else if string_at w pos 4 ("WICZ" ∷ "WITZ" ∷ [])
    then sound "TS" "FX" 4
    else sound "" "" 1

unfoldable pub rule_x : Text → ℕ → Sound
rule_x w pos =
    let n = if among (at w (pos + 1)) (codes "CX") then 2 else 1 in
    if pos + 1 == length w
      && (string_before w pos 3 3 ("IAU" ∷ "EAU" ∷ [])
          || string_before w pos 2 2 ("AU" ∷ "OU" ∷ []))
    then sound "" "" n
    else sound "KS" "KS" n

unfoldable pub rule_z : Text → Bool → ℕ → Sound
rule_z w slavo pos =
    if at w (pos + 1) == b'H'
    then sound "J" "J" 2
    else if string_at w (pos + 1) 2 ("ZO" ∷ "ZI" ∷ "ZA" ∷ [])
        || ((slavo && ltb 0 pos) && not (before w pos 1 == b'T'))
    then sound "S" "TS" (over w pos b'Z')
    else sound "S" "S" (over w pos b'Z')
