-- ===== src/Metaphone/Codes.antt =====
-- The loop ends, its codes are made of the code alphabet, and blanks do not matter to them.
use mathlib.Core.List.{flatten, append-nil}
use voip.Prelude.{
  ℕ, zero, suc, ◌+◌, ◌*◌, ◌≤◌, ◌<◌, Bool, true, List, [], ◌∷◌, ◌++◌, ltb, ◌==◌, Text, length, ◌≡◌,
  refl, sym, ap, arith, ltb→lt, ltb-false, Bool-cases, inl, inr, length-append, same_text,
  same_text_iff, join, and-true, and_intro,
}
use voip.Metaphone.Word.{letters, at, is_slavo}
use voip.Metaphone.Loop.{
  rule, rounds, start_at, opening, code_word, double_metaphone, squeeze, phonetic_key, is_empty,
  equal_codes, phonetic_equal,
}
use voip.Metaphone.Sounds.{all_code, rule-IsSound}

module _ (w : Text) (slavo : Bool) where
  -- The loop as the source has it, with no bound on its rounds.
  pub data Run : ℕ → Text → Text → Text × Text → Type 0 where
    done : {pos : ℕ} {p s : Text} → length w ≤ pos → Run pos p s (p, s)
    round :
        {pos : ℕ} {p s : Text} {r : Text × Text}
        → pos < length w
        → Run
            (pos + (rule w slavo pos (at w pos)).advance)
            (p ++ (rule w slavo pos (at w pos)).primary)
            (s ++ (rule w slavo pos (at w pos)).secondary)
            r
        → Run pos p s r

  rounds-Run :
      (fuel pos : ℕ) (p s : Text)
      → length w ≤ pos + fuel
      → Run pos p s (rounds fuel w slavo pos p s)
  unfolding rounds
  rounds-Run zero pos p s h = done (omega arith)
  rounds-Run (suc fuel) pos p s h = elim (Bool-cases (ltb pos (length w))) [
    | inr over ↦ rw over (done (ltb-false _ _ over))
    | inl more ↦
        let sounds = rule-IsSound w slavo pos (at w pos) in
        rw more (
          round (ltb→lt _ _ more) (
            rounds-Run fuel (pos + (rule w slavo pos (at w pos)).advance)
              (p ++ (rule w slavo pos (at w pos)).primary)
              (s ++ (rule w slavo pos (at w pos)).secondary) (omega (arith, sounds.moves))))
  ]

all_code-append : (p q : Text) → all_code p ≡ true → all_code q ≡ true → all_code (p ++ q) ≡ true
all_code-append [] q hp hq = hq
all_code-append (c ∷ p) q hp hq =
    let h = and-true _ (all_code p) hp in and_intro _ _ h.0 (all_code-append p q h.1 hq)

-- A code of the alphabet, of at most `n` letters.
pub record IsCode (n : ℕ) (p : Text) : Type 0 where
  pub alphabet : all_code p ≡ true
  pub size : length p ≤ n

IsCode-weaken : (n m : ℕ) (p : Text) → n ≤ m → IsCode n p → IsCode m p
IsCode-weaken n m p h c = record { alphabet = c.alphabet; size = omega (arith, c.size) }

IsCode-append :
    (n : ℕ) (p q : Text) → IsCode n p → all_code q ≡ true → length q ≤ 2 → IsCode (n + 2) (p ++ q)
IsCode-append n p q c h l = record {
  alphabet = all_code-append p q c.alphabet h;
  size = omega (arith, c.size, length-append p q);
}

rounds-IsCode :
    (w : Text) (slavo : Bool) (fuel pos n : ℕ) (p s : Text)
    → IsCode n p
    → IsCode n s
    → IsCode (n + 2 * fuel) (rounds fuel w slavo pos p s).0
      × IsCode (n + 2 * fuel) (rounds fuel w slavo pos p s).1
unfolding rounds
rounds-IsCode w slavo zero pos n p s hp hs =
    (IsCode-weaken n _ p (omega arith) hp, IsCode-weaken n _ s (omega arith) hs)
rounds-IsCode w slavo (suc fuel) pos n p s hp hs = elim (Bool-cases (ltb pos (length w))) [
  | inr over ↦ rw over (IsCode-weaken n _ p (omega arith) hp, IsCode-weaken n _ s (omega arith) hs)
  | inl more ↦
      let sounds = rule-IsSound w slavo pos (at w pos) in
      let rest =
        rounds-IsCode w slavo fuel (pos + (rule w slavo pos (at w pos)).advance) (n + 2)
          (p ++ (rule w slavo pos (at w pos)).primary)
          (s ++ (rule w slavo pos (at w pos)).secondary)
          (IsCode-append n p _ hp sounds.primary_code sounds.primary_size)
          (IsCode-append n s _ hs sounds.secondary_code sounds.secondary_size) in
      rw more (
        IsCode-weaken (n + 2 + 2 * fuel) _ _ (omega arith) rest.0,
        IsCode-weaken (n + 2 + 2 * fuel) _ _ (omega arith) rest.1,
      )
]

letters-append : (xs ys : Text) → letters (xs ++ ys) ≡ letters xs ++ letters ys
unfolding letters
letters-append [] ys = refl
letters-append (x ∷ xs) ys = ground (arith, letters-append xs ys)

letters-squeeze : (xs : Text) → letters (squeeze xs) ≡ letters xs
unfolding letters squeeze
letters-squeeze [] = refl
letters-squeeze (x ∷ xs) = ground (arith, letters-squeeze xs)

letters-blank : (xs : Text) → letters (32 ∷ xs) ≡ letters xs
unfolding letters
letters-blank xs = refl

letters-join : (ws : List Text) → letters (join ws) ≡ letters (flatten ws)
unfolding join flatten
letters-join [] = refl
letters-join (w ∷ []) = ap letters (sym (append-nil w))
letters-join (w ∷ v ∷ ws) =
    rw (letters-append w, letters-append w)
      (rw (letters-blank (join (v ∷ ws)))
        (ap (λ (t : Text). letters w ++ t) (letters-join (v ∷ ws))))

same_text_comm : (a b : Text) → same_text a b ≡ same_text b a
unfolding same_text
same_text_comm [] [] = refl
same_text_comm [] (y ∷ ys) = refl
same_text_comm (x ∷ xs) [] = refl
same_text_comm (x ∷ xs) (y ∷ ys) = ground (arith, same_text_comm xs ys)

-- On a word with letters the loop with no bound on its rounds ends, and `double_metaphone` returns
-- what it ends with.
pub double_metaphone-Run :
    (word cs : Text) (c : ℕ)
    → letters word ≡ c ∷ cs
    → Run
        (c ∷ cs)
        (is_slavo (c ∷ cs))
        (start_at (c ∷ cs))
        (opening (c ∷ cs))
        (opening (c ∷ cs))
        (double_metaphone word)
unfolding double_metaphone code_word
double_metaphone-Run word cs c e =
    rw e (rounds-Run (c ∷ cs) (is_slavo (c ∷ cs)) _ _ _ _ (omega arith))

opening-IsCode : (w : Text) → IsCode 1 (opening w)
unfolding opening
opening-IsCode w = elim (Bool-cases (at w 0 == b'X')) [
  | inl x ↦ rw x (record { alphabet = refl; size = omega arith })
  | inr other ↦ rw other (record { alphabet = refl; size = omega arith })
]

code_word-IsCode :
    (w : Text)
    → IsCode (1 + 2 * length w) (code_word w).0 × IsCode (1 + 2 * length w) (code_word w).1
unfolding code_word
code_word-IsCode [] =
    (record { alphabet = refl; size = omega arith }, record { alphabet = refl; size = omega arith })
code_word-IsCode (c ∷ cs) =
    rounds-IsCode _ _ _ _ 1 _ _ (opening-IsCode (c ∷ cs)) (opening-IsCode (c ∷ cs))

-- Both codes are made of the code alphabet, and at most one letter longer than twice the word.
pub double_metaphone-IsCode :
    (word : Text)
    → IsCode (1 + 2 * length (letters word)) (double_metaphone word).0
      × IsCode (1 + 2 * length (letters word)) (double_metaphone word).1
unfolding double_metaphone
double_metaphone-IsCode word = code_word-IsCode (letters word)

codes-join :
    (ws : List Text)
    → double_metaphone (squeeze (join ws)) ≡ double_metaphone (squeeze (flatten ws))
unfolding double_metaphone
codes-join ws = rw (letters-squeeze (join ws), letters-squeeze (flatten ws), letters-join ws)

-- How a phrase is cut into words matters neither to its key nor to what it sounds equal to.
pub phonetic-join :
    (ws : List Text) (b : Text)
    → (phonetic_key (join ws) ≡ phonetic_key (flatten ws))
      × (phonetic_equal (join ws) b ≡ phonetic_equal (flatten ws) b)
unfolding phonetic_key phonetic_equal
phonetic-join ws b = (
  ap (λ (r : Text × Text). r.0) (codes-join ws),
  ap (λ (r : Text × Text). equal_codes r (double_metaphone (squeeze b))) (codes-join ws),
)

same_text_empty : (a b : Text) → same_text a b ≡ true → is_empty a ≡ is_empty b
same_text_empty a b h = ap is_empty ((same_text_iff a b).0 h)

equal_codes_comm : (a b : Text × Text) → equal_codes a b ≡ equal_codes b a
unfolding equal_codes
equal_codes_comm (a1, a2) (b1, b2) = ground (
  arith,
  same_text_comm a1 b1,
  same_text_comm a1 b2,
  same_text_comm a2 b1,
  same_text_comm a2 b2,
  same_text_empty a2 b2,
)

-- Sounding equal does not depend on the order of the two texts.
phonetic_equal_comm : (a b : Text) → phonetic_equal a b ≡ phonetic_equal b a
unfolding phonetic_equal
phonetic_equal_comm a b =
    equal_codes_comm (double_metaphone (squeeze a)) (double_metaphone (squeeze b))
