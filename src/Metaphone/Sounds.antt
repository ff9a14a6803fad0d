-- ===== src/Metaphone/Sounds.antt =====
-- Every rule moves on, and adds at most two letters of the code alphabet to each code.
use voip.Prelude.{
  ℕ, ◌≤◌, Bool, true, false, ◌&&◌, ◌||◌, [], ◌∷◌, leb, ◌==◌, if◌then◌else◌, Text, codes, length,
  ◌≡◌, refl, String, arith,
}
use voip.Metaphone.Word.{Sound, sound, over}
use voip.Metaphone.Consonants.{
  rule_b, rule_d, rule_f, rule_h, rule_j, rule_k, rule_l, rule_m, rule_n, rule_p, rule_q, rule_r,
  rule_t, rule_v, rule_w, rule_x, rule_z,
}
use voip.Metaphone.Clusters.{rule_ch, rule_cc, rule_c, rule_gh, rule_gn, rule_g, rule_sc, rule_s}
use voip.Metaphone.Loop.{rule_from_m, rule}

-- The letters that codes are made of.
abbrev pub all_code : Text → Bool
all_code [] = true
all_code (c ∷ cs) =
    (c == b'0'
      || (c == b'A'
          || (c == b'F'
              || (c == b'H'
                  || (c == b'J'
                      || (c == b'K'
                          || (c == b'L'
                              || (c == b'M'
                                  || (c == b'N'
                                      || (c == b'P'
                                          || (c == b'R'
                                              || (c == b'S' || (c == b'T' || c == b'X')))))))))))))
    && all_code cs

abbrev fits : String → Bool
fits p = all_code (codes p) && leb (length (codes p)) 2

pub record IsSound (s : Sound) : Type 0 where
  pub moves : 1 ≤ s.advance
  pub primary_code : all_code s.primary ≡ true
  pub secondary_code : all_code s.secondary ≡ true
  pub primary_size : length s.primary ≤ 2
  pub secondary_size : length s.secondary ≤ 2

IsSound-sound : (p s : String) (n : ℕ) → 1 ≤ n → (fits p && fits s) ≡ true → IsSound (sound p s n)
unfolding sound
IsSound-sound p s n h f = ground (arith, f)

IsSound-if : (b : Bool) (x y : Sound) → IsSound x → IsSound y → IsSound (if b then x else y)
IsSound-if true x y hx hy = hx
IsSound-if false x y hx hy = hy

over_moves : (w : Text) (pos c : ℕ) → 1 ≤ over w pos c
unfolding over
over_moves w pos c = ground arith

ruleset sound_rules = (arith, IsSound-if, IsSound-sound, over_moves, refl)

rule_b-IsSound : (w : Text) (pos : ℕ) → IsSound (rule_b w pos)
unfolding rule_b
rule_b-IsSound w pos = search (sound_rules) depth 30

rule_d-IsSound : (w : Text) (pos : ℕ) → IsSound (rule_d w pos)
unfolding rule_d
rule_d-IsSound w pos = search (sound_rules) depth 30

rule_f-IsSound : (w : Text) (pos : ℕ) → IsSound (rule_f w pos)
unfolding rule_f
rule_f-IsSound w pos = search (sound_rules) depth 30

rule_h-IsSound : (w : Text) (pos : ℕ) → IsSound (rule_h w pos)
unfolding rule_h
rule_h-IsSound w pos = search (sound_rules) depth 30

rule_j-IsSound : (w : Text) (slavo : Bool) (pos : ℕ) → IsSound (rule_j w slavo pos)
unfolding rule_j
rule_j-IsSound w slavo pos = search (sound_rules) depth 30

rule_k-IsSound : (w : Text) (pos : ℕ) → IsSound (rule_k w pos)
unfolding rule_k
rule_k-IsSound w pos = search (sound_rules) depth 30

rule_l-IsSound : (w : Text) (pos : ℕ) → IsSound (rule_l w pos)
unfolding rule_l
rule_l-IsSound w pos = search (sound_rules) depth 30

rule_m-IsSound : (w : Text) (pos : ℕ) → IsSound (rule_m w pos)
unfolding rule_m
rule_m-IsSound w pos = search (sound_rules) depth 30

rule_n-IsSound : (w : Text) (pos : ℕ) → IsSound (rule_n w pos)
unfolding rule_n
rule_n-IsSound w pos = search (sound_rules) depth 30

rule_p-IsSound : (w : Text) (pos : ℕ) → IsSound (rule_p w pos)
unfolding rule_p
rule_p-IsSound w pos = search (sound_rules) depth 30

rule_q-IsSound : (w : Text) (pos : ℕ) → IsSound (rule_q w pos)
unfolding rule_q
rule_q-IsSound w pos = search (sound_rules) depth 30

rule_r-IsSound : (w : Text) (slavo : Bool) (pos : ℕ) → IsSound (rule_r w slavo pos)
unfolding rule_r
rule_r-IsSound w slavo pos = search (sound_rules) depth 30

rule_t-IsSound : (w : Text) (pos : ℕ) → IsSound (rule_t w pos)
unfolding rule_t
rule_t-IsSound w pos = search (sound_rules) depth 30

rule_v-IsSound : (w : Text) (pos : ℕ) → IsSound (rule_v w pos)
unfolding rule_v
rule_v-IsSound w pos = search (sound_rules) depth 30

rule_w-IsSound : (w : Text) (pos : ℕ) → IsSound (rule_w w pos)
unfolding rule_w
rule_w-IsSound w pos = search (sound_rules) depth 30

rule_x-IsSound : (w : Text) (pos : ℕ) → IsSound (rule_x w pos)
unfolding rule_x
rule_x-IsSound w pos = search (sound_rules) depth 30

rule_z-IsSound : (w : Text) (slavo : Bool) (pos : ℕ) → IsSound (rule_z w slavo pos)
unfolding rule_z
rule_z-IsSound w slavo pos = search (sound_rules) depth 30

rule_ch-IsSound : (w : Text) (pos : ℕ) → IsSound (rule_ch w pos)
unfolding rule_ch
rule_ch-IsSound w pos = search (sound_rules) depth 30

rule_cc-IsSound : (w : Text) (pos : ℕ) → IsSound (rule_cc w pos)
unfolding rule_cc
rule_cc-IsSound w pos = search (sound_rules) depth 30

rule_c-IsSound : (w : Text) (pos : ℕ) → IsSound (rule_c w pos)
unfolding rule_c
rule_c-IsSound w pos = search (sound_rules, rule_ch-IsSound, rule_cc-IsSound) depth 30

rule_gh-IsSound : (w : Text) (pos : ℕ) → IsSound (rule_gh w pos)
unfolding rule_gh
rule_gh-IsSound w pos = search (sound_rules) depth 30

rule_gn-IsSound : (w : Text) (slavo : Bool) (pos : ℕ) → IsSound (rule_gn w slavo pos)
unfolding rule_gn
rule_gn-IsSound w slavo pos = search (sound_rules) depth 30

rule_g-IsSound : (w : Text) (slavo : Bool) (pos : ℕ) → IsSound (rule_g w slavo pos)
unfolding rule_g
rule_g-IsSound w slavo pos = search (sound_rules, rule_gh-IsSound, rule_gn-IsSound) depth 30

rule_sc-IsSound : (w : Text) (pos : ℕ) → IsSound (rule_sc w pos)
unfolding rule_sc
rule_sc-IsSound w pos = search (sound_rules) depth 30

rule_s-IsSound : (w : Text) (slavo : Bool) (pos : ℕ) → IsSound (rule_s w slavo pos)
unfolding rule_s
rule_s-IsSound w slavo pos = search (sound_rules, rule_sc-IsSound) depth 30

rule_from_m-IsSound : (w : Text) (slavo : Bool) (pos ch : ℕ) → IsSound (rule_from_m w slavo pos ch)
unfolding rule_from_m
rule_from_m-IsSound w slavo pos ch =
    search
      (
        sound_rules, rule_m-IsSound, rule_n-IsSound, rule_p-IsSound, rule_q-IsSound, rule_r-IsSound,
        rule_s-IsSound, rule_t-IsSound, rule_v-IsSound, rule_w-IsSound, rule_x-IsSound,
        rule_z-IsSound,
      )
      depth 30

-- Whatever the letter, one round moves on by at least one place and adds to each code at most two
-- letters, all of the code alphabet.
pub rule-IsSound : (w : Text) (slavo : Bool) (pos ch : ℕ) → IsSound (rule w slavo pos ch)
unfolding rule
rule-IsSound w slavo pos ch =
    search
      (
        sound_rules, rule_b-IsSound, rule_c-IsSound, rule_d-IsSound, rule_f-IsSound, rule_g-IsSound,
        rule_h-IsSound, rule_j-IsSound, rule_k-IsSound, rule_l-IsSound, rule_from_m-IsSound,
      )
      depth 30
