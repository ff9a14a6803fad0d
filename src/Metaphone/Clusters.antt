-- ===== src/Metaphone/Clusters.antt =====
-- The rules of `double_metaphone` for C, G and S.
use voip.Prelude.{
  ℕ, ◌+◌, Bool, ◌&&◌, ◌||◌, not, [], ◌∷◌, ltb, ◌==◌, if◌then◌else◌, Text, codes, length,
}
use voip.Metaphone.Word.{among, is_vowel, at, before, string_at, string_before, Sound, sound, over}

-- The -CH- cases: Greek and Germanic roots take K.
unfoldable pub rule_ch : Text → ℕ → Sound
rule_ch w pos =
    if ltb 0 pos && string_at w pos 4 ("CHAE" ∷ [])
    then sound "K" "X" 2
    else if (pos == 0
          && (string_at w (pos + 1) 5 ("HARAC" ∷ "HARIS" ∷ [])
              || string_at w (pos + 1) 3 ("HOR" ∷ "HYM" ∷ "HIA" ∷ "HEM" ∷ [])))
        && not (string_at w 0 5 ("CHORE" ∷ []))
    then sound "K" "K" 2
    else if ((string_at w 0 4 ("VAN " ∷ "VON " ∷ []) || string_at w 0 3 ("SCH" ∷ []))
          || (string_before w pos 2 6 ("ORCHES" ∷ "ARCHIT" ∷ "ORCHID" ∷ [])
              || among (at w (pos + 2)) (codes "TS")))
        || ((among (before w pos 1) (codes "AOUE") || pos == 0)
            && (among (at w (pos + 2)) (codes "LRNMBHFVW ") || at w (pos + 2) == 0))
    then sound "K" "K" 2
    else if string_at w 0 2 ("MC" ∷ [])
    then sound "K" "K" 2
    else sound "X" "K" 2

-- The -CC- cases.
unfoldable pub rule_cc : Text → ℕ → Sound
rule_cc w pos =
    if string_at w (pos + 2) 1 ("I" ∷ "E" ∷ "H" ∷ []) && not (string_at w (pos + 2) 2 ("HU" ∷ []))
    then (if (pos == 1 && before w pos 1 == b'A')
          || string_before w pos 1 5 ("UCCEE" ∷ "UCCES" ∷ [])
        then sound "KS" "KS" 3
        else sound "X" "X" 3)
    else sound "K" "K" 2

-- -ACH- as in "Bach", but not -ACHE-, nor the Romance -ACHER- and -ACHIN-.
unfoldable pub is_germanic_ach : Text → ℕ → Bool
is_germanic_ach w pos =
    ((ltb 1 pos && not (is_vowel (before w pos 2))) && string_before w pos 1 3 ("ACH" ∷ []))
    && (not (at w (pos + 2) == b'I')
        && (not (at w (pos + 2) == b'E') || string_before w pos 2 6 ("BACHER" ∷ "MACHER" ∷ [])))

unfoldable pub rule_c : Text → ℕ → Sound
rule_c w pos =
    if is_germanic_ach w pos
    then sound "K" "K" 2
    else if pos == 0 && string_at w pos 6 ("CAESAR" ∷ [])
    then sound "S" "S" 2
    else if string_at w pos 4 ("CHIA" ∷ [])
    then sound "K" "K" 2
    else if string_at w pos 2 ("CH" ∷ [])
    then rule_ch w pos
    else if string_at w pos 2 ("CZ" ∷ []) && not (string_before w pos 2 4 ("WICZ" ∷ []))
    then sound "S" "X" 2
    else if string_at w (pos + 1) 3 ("CIA" ∷ [])
    then sound "X" "X" 3
    else if string_at w pos 2 ("CC" ∷ []) && not (pos == 1 && at w 0 == b'M')
    then rule_cc w pos
    else if string_at w pos 2 ("CK" ∷ "CG" ∷ "CQ" ∷ [])
    then sound "K" "K" 2
    else if string_at w pos 2 ("CI" ∷ "CE" ∷ "CY" ∷ [])
    then (if string_at w pos 3 ("CIO" ∷ "CIE" ∷ "CIA" ∷ [])
        then sound "S" "X" 2
        else sound "S" "S" 2)
    else if string_at w (pos + 1) 2 (" C" ∷ " Q" ∷ " G" ∷ [])
    then sound "K" "K" 3
    else if string_at w (pos + 1) 1 ("C" ∷ "K" ∷ "Q" ∷ [])
        && not (string_at w (pos + 1) 2 ("CE" ∷ "CI" ∷ []))
    then sound "K" "K" 2
    else sound "K" "K" 1

-- The -GH- cases, with Parker's rule.
unfoldable pub rule_gh : Text → ℕ → Sound
rule_gh w pos =
    if ltb 0 pos && not (is_vowel (before w pos 1))
    then sound "K" "K" 2
    else if pos == 0
    then (if at w (pos + 2) == b'I' then sound "J" "J" 2 else sound "K" "K" 2)
    else if (ltb 1 pos && string_before w pos 2 1 ("B" ∷ "H" ∷ "D" ∷ []))
        || ((ltb 2 pos && string_before w pos 3 1 ("B" ∷ "H" ∷ "D" ∷ []))
            || (ltb 3 pos && string_before w pos 4 1 ("B" ∷ "H" ∷ [])))
    then sound "" "" 2
    else if (ltb 2 pos && before w pos 1 == b'U')
        && string_before w pos 3 1 ("C" ∷ "G" ∷ "L" ∷ "R" ∷ "T" ∷ [])
    then sound "F" "F" 2
    else if ltb 0 pos && not (before w pos 1 == b'I')
    then sound "K" "K" 2
    else sound "" "" 2

-- The -GN- cases.
unfoldable pub rule_gn : Text → Bool → ℕ → Sound
rule_gn w slavo pos =
    if (pos == 1 && is_vowel (at w 0)) && not slavo
    then sound "KN" "N" 2
    else if (not (string_at w (pos + 2) 2 ("EY" ∷ [])) && not (at w (pos + 1) == b'Y')) && not slavo
    then sound "N" "KN" 2
    else sound "KN" "KN" 2

unfoldable pub rule_g : Text → Bool → ℕ → Sound
rule_g w slavo pos =
    if at w (pos + 1) == b'H'
    then rule_gh w pos
    else if at w (pos + 1) == b'N'
    then rule_gn w slavo pos
    else if string_at w (pos + 1) 2 ("LI" ∷ []) && not slavo
    then sound "KL" "L" 2
    else if pos == 0
        && (at w (pos + 1) == b'Y'
            || string_at w (pos + 1) 2
                ("ES" ∷ "EP" ∷ "EB" ∷ "EL" ∷ "EY" ∷ "IB" ∷ "IL" ∷ "IN" ∷ "IE" ∷ "EI" ∷ "ER" ∷ []))
    then sound "K" "J" 2
    else if ((string_at w (pos + 1) 2 ("ER" ∷ []) || at w (pos + 1) == b'Y')
          && not (string_at w 0 6 ("DANGER" ∷ "RANGER" ∷ "MANGER" ∷ [])))
        && (not (string_before w pos 1 1 ("E" ∷ "I" ∷ []))
            && not (string_before w pos 1 3 ("RGY" ∷ "OGY" ∷ [])))
    then sound "K" "J" 2
    else if string_at w (pos + 1) 1 ("E" ∷ "I" ∷ "Y" ∷ [])
        || string_before w pos 1 4 ("AGGI" ∷ "OGGI" ∷ [])
    then (if (string_at w 0 4 ("VAN " ∷ "VON " ∷ []) || string_at w 0 3 ("SCH" ∷ []))
          || string_at w (pos + 1) 2 ("ET" ∷ [])
        then sound "K" "K" 2
        else if string_at w (pos + 1) 4 ("IER " ∷ [])
        then sound "J" "J" 2
        else sound "J" "K" 2)
    else sound "K" "K" (over w pos b'G')

-- The -SC- cases.
unfoldable pub rule_sc : Text → ℕ → Sound
rule_sc w pos =
    if at w (pos + 2) == b'H'
    then (if string_at w (pos + 3) 2 ("OO" ∷ "ER" ∷ "EN" ∷ "UY" ∷ "ED" ∷ "EM" ∷ [])
        then (if string_at w (pos + 3) 2 ("ER" ∷ "EN" ∷ [])
            then sound "X" "SK" 3
            else sound "SK" "SK" 3)
        else if (pos == 0 && not (is_vowel (at w 3))) && not (at w 3 == b'W')
        then sound "X" "S" 3
        else sound "X" "X" 3)
    else if among (at w (pos + 2)) (codes "IEY")
    then sound "S" "S" 3
    else sound "SK" "SK" 3

unfoldable pub rule_s : Text → Bool → ℕ → Sound
rule_s w slavo pos =
    if string_before w pos 1 3 ("ISL" ∷ "YSL" ∷ [])
    then sound "" "" 1
    else if pos == 0 && string_at w pos 5 ("SUGAR" ∷ [])
    then sound "X" "S" 1
    else if string_at w pos 2 ("SH" ∷ [])
    then (if string_at w (pos + 1) 4 ("HEIM" ∷ "HOEK" ∷ "HOLM" ∷ "HOLZ" ∷ [])
        then sound "S" "S" 2
        else sound "X" "X" 2)
    else if string_at w pos 3 ("SIO" ∷ "SIA" ∷ []) || string_at w pos 4 ("SIAN" ∷ [])
    then (if slavo then sound "S" "S" 3 else sound "S" "X" 3)
    else if (pos == 0 && among (at w (pos + 1)) (codes "MNLW")) || at w (pos + 1) == b'Z'
    then sound "S" "X" (over w pos b'Z')
    else if string_at w pos 2 ("SC" ∷ [])
    then rule_sc w pos
    else (let n = if among (at w (pos + 1)) (codes "SZ") then 2 else 1 in
        if pos + 1 == length w && string_before w pos 2 2 ("AI" ∷ "OI" ∷ [])
        then sound "" "S" n
        else sound "S" "S" n)
