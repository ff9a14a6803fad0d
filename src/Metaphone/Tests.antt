-- ===== src/Metaphone/Tests.antt =====
-- The self-test of phraseguard/metaphone.py.
use mathlib.Core.List.{flatten}
use voip.Prelude.{◌+◌, ◌*◌, length, join, true, false, ◌≡◌, refl, codes, same_text, [], ◌∷◌}
use voip.Metaphone.Word.{
  letters, is_vowel, at, before, string_at, string_before, is_slavo, sound, over, among,
}
use voip.Metaphone.Consonants.{
  rule_b, rule_d, rule_f, rule_h, rule_j, rule_k, rule_l, rule_m, rule_n, rule_p, rule_q, rule_r,
  rule_t, rule_v, rule_w, rule_x, rule_z,
}
use voip.Metaphone.Clusters.{
  rule_ch, rule_cc, is_germanic_ach, rule_c, rule_gh, rule_gn, rule_g, rule_sc, rule_s,
}
use voip.Metaphone.Sounds.{IsSound, rule-IsSound}
use voip.Metaphone.Codes.{Run, IsCode, double_metaphone-Run, double_metaphone-IsCode, phonetic-join}
use voip.Metaphone.Loop.{
  rule_from_m, rule, rounds, start_at, opening, code_word, double_metaphone, squeeze, phonetic_key,
  is_empty, equal_codes, phonetic_equal,
}

-- What a run of the program unfolds.
unfoldable pub program : Unit {0}
unfolding letters is_vowel at before string_at string_before is_slavo sound over among same_text
    rule_b rule_d rule_f rule_h rule_j rule_k rule_l rule_m rule_n rule_p rule_q rule_r rule_t
    rule_v rule_w rule_x rule_z rule_ch rule_cc is_germanic_ach rule_c rule_gh rule_gn rule_g
    rule_sc rule_s rule_from_m rule rounds start_at opening code_word double_metaphone squeeze
    phonetic_key is_empty equal_codes phonetic_equal
program = tt

anydesk : phonetic_key (codes "any desk") ≡ codes "ANTSK"
unfolding program
anydesk = refl

and_ask : phonetic_equal (codes "and ask") (codes "any desk") ≡ true
unfolding program
and_ask = refl

teamviewer : phonetic_equal (codes "teamviewer") (codes "team viewer") ≡ true
unfolding program
teamviewer = refl

team_review : phonetic_equal (codes "teamviewer") (codes "team review") ≡ false
unfolding program
team_review = refl

logmein : phonetic_equal (codes "logmein") (codes "log me in") ≡ true
unfolding program
logmein = refl

monogram : phonetic_equal (codes "moneygram") (codes "monogram") ≡ true
unfolding program
monogram = refl

mchugh : phonetic_key (codes "mchugh") ≡ codes "MK"
unfolding program
mchugh = refl

letters_gnat : letters (codes "GNAT") ≡ codes "GNAT"
unfolding program
letters_gnat = refl

double_metaphone-Run_example :
    Run
      (codes "GNAT")
      (is_slavo (codes "GNAT"))
      (start_at (codes "GNAT"))
      (opening (codes "GNAT"))
      (opening (codes "GNAT"))
      (double_metaphone (codes "GNAT"))
double_metaphone-Run_example = double_metaphone-Run (codes "GNAT") (codes "NAT") 71 letters_gnat

double_metaphone-IsCode_example :
    IsCode (1 + 2 * length (letters (codes "gnat"))) (double_metaphone (codes "gnat")).0
    × IsCode (1 + 2 * length (letters (codes "gnat"))) (double_metaphone (codes "gnat")).1
double_metaphone-IsCode_example = double_metaphone-IsCode (codes "gnat")

phonetic-join_example :
    (phonetic_key (join (codes "any" ∷ codes "desk" ∷ []))
      ≡ phonetic_key (flatten (codes "any" ∷ codes "desk" ∷ [])))
    × (phonetic_equal (join (codes "any" ∷ codes "desk" ∷ [])) (codes "anydesk")
        ≡ phonetic_equal (flatten (codes "any" ∷ codes "desk" ∷ [])) (codes "anydesk"))
phonetic-join_example = phonetic-join (codes "any" ∷ codes "desk" ∷ []) (codes "anydesk")

rule-IsSound_example : IsSound (rule (codes "GNAT") false 0 71)
rule-IsSound_example = rule-IsSound (codes "GNAT") false 0 71
