-- ===== src/Matcher/Loading/Rows.antt =====
-- What every phrase of a loaded corpus has.
use voip.Prelude.{
  ℕ, suc, ◌≤◌, ◌≡◌, ◌≢◌, refl, not, String, List, [], ◌∷◌, ◌++◌, map, Option, none, some, arith,
  ltb, ◌==◌, length, Text, Text-eq, join, member, Option-cases, Bool-cases, inl, inr, All,
  All-append,
}
use voip.Matcher.Normalize.{lower, normalize}
use voip.Matcher.Phrases.{Tier, Anchor, Phrase}
use voip.Metaphone.Word.{upper_char}
use voip.Metaphone.Loop.{phonetic_key, is_empty}
use voip.Matcher.Loading.{
  Outcome, tier_named, anchor_named, is_skipped, column, seen_before, new_phrase, read_phrase,
  read_fields, read_entry, lang_of, read_entries, some_phrases, read_corpus,
}

-- A phrase that the matcher can use.
pub record Usable (p : Phrase) : Type 0 where
  pub nonempty : 1 ≤ length p.tokens
  pub tokenised : p.tokens ≡ normalize p.text
  pub joined : p.joined ≡ join p.tokens
  pub sound : p.pkey ≡ phonetic_key p.joined
  pub tiered : p.tier ≢ Tier.a_near

abbrev pub Holds {ℓ} : {A : Type 0} → (A → Type ℓ) → Outcome A → Type ℓ
Holds P (Outcome.loaded a) = P a
Holds P (Outcome.refused e) = Unit

abbrev pub UsableEntry : Option Phrase → Type 0
UsableEntry none = Unit
UsableEntry (some p) = Usable p

tier_named-cases : (t : Text) (tier : Tier) → tier_named t ≡ some tier → tier ≢ Tier.a_near
unfolding tier_named
tier_named-cases t tier h e = ground (arith, h, e)

module _ (read_row : Text → Option (List Text)) (pack : Text → String) (langs : List Text) where
  read_phrase-UsableEntry :
      (tier : Tier) (anchor : Anchor) (row : List Text) (lineno : ℕ) (seen : List (Text × Text))
      → tier ≢ Tier.a_near
      → Holds UsableEntry (read_phrase read_row pack langs tier anchor row lineno seen)
  unfolding read_phrase new_phrase
  read_phrase-UsableEntry tier anchor row lineno seen near =
      elim (Bool-cases (is_empty (column row 4))) [
        | inl blank ↦ rw (read_phrase, blank) tt
        | inr text ↦ elim (Bool-cases (not (member (lower (column row 2)) langs))) [
          | inl foreign ↦ rw (read_phrase, text, foreign) tt
          | inr ours ↦ elim (Bool-cases (length (normalize (column row 4)) == 0)) [
            | inl nothing ↦ rw (read_phrase, text, ours, nothing) tt
            | inr words ↦
                elim (Bool-cases
                  (seen_before (lower (column row 2)) (join (normalize (column row 4))) seen)) [
                    | inl twice ↦ rw (read_phrase, text, ours, words, twice) tt
                    | inr once ↦
                        rw (read_phrase, text, ours, words, once)
                          (record {
                            nonempty = ground (arith, words);
                            tokenised = refl;
                            joined = refl;
                            sound = refl;
                            tiered = near;
                          })
                  ]
          ]
        ]
      ]

  read_fields-UsableEntry :
      (row : List Text) (lineno : ℕ) (seen : List (Text × Text))
      → Holds UsableEntry (read_fields read_row pack langs row lineno seen)
  unfolding read_fields
  read_fields-UsableEntry row lineno seen = elim (Bool-cases (ltb (length row) 5)) [
    | inl short ↦ rw (read_fields, short) tt
    | inr full ↦ elim (Option-cases (tier_named (map upper_char (column row 0)))) [
      | inl unknown ↦ rw (read_fields, full, unknown) tt
      | inr (tier, known) ↦ elim (Option-cases (anchor_named (lower (column row 3)))) [
        | inl adrift ↦ rw (read_fields, full, known, adrift) tt
        | inr (anchor, moored) ↦
            rw (read_fields, full, known, moored)
              (read_phrase-UsableEntry tier anchor row lineno seen
                (tier_named-cases (map upper_char (column row 0)) tier known))
      ]
    ]
  ]

  read_entry-UsableEntry :
      (line : Text) (lineno : ℕ) (seen : List (Text × Text))
      → Holds UsableEntry (read_entry read_row pack langs line lineno seen)
  unfolding read_entry
  read_entry-UsableEntry line lineno seen = elim (Bool-cases (is_skipped line)) [
    | inl skip ↦ rw (read_entry, skip) tt
    | inr kept ↦ elim (Option-cases (read_row line)) [
      | inl broken ↦ rw (read_entry, kept, broken) tt
      | inr (row, parsed) ↦ rw (read_entry, kept, parsed) (read_fields-UsableEntry row lineno seen)
    ]
  ]

  read_entries-All :
      (lineno : ℕ) (seen : List (Text × Text)) (phrases : List Phrase) (lines : List Text)
      → All Usable phrases
      → Holds (All Usable) (read_entries read_row pack langs lineno seen phrases lines)
  unfolding read_entries
  read_entries-All lineno seen phrases [] h = h
  read_entries-All lineno seen phrases (line ∷ lines) h =
      next (λ n known ps a. read_entries-All n known ps lines a)
        (read_entry read_row pack langs line lineno seen) refl
        (read_entry-UsableEntry line lineno seen)
    where
      next :
          ((n : ℕ) (known : List (Text × Text)) (ps : List Phrase)
            → All Usable ps
            → Holds (All Usable) (read_entries read_row pack langs n known ps lines))
          → (o : Outcome (Option Phrase)) → read_entry read_row pack langs line lineno seen ≡ o
          → Holds UsableEntry o
          → Holds (All Usable) (read_entries read_row pack langs lineno seen phrases (line ∷ lines))
      next rest (Outcome.refused e) got u = rw (read_entries, got) tt
      next rest (Outcome.loaded none) got u =
          rw (read_entries, got) (rest (suc lineno) seen phrases h)
      next rest (Outcome.loaded (some p)) got u =
          rw (read_entries, got)
            (rest (suc lineno) ((lang_of read_row pack langs line, p.joined) ∷ seen)
              (phrases ++ (p ∷ [])) (All-append Usable phrases (p ∷ []) h (u, tt)))

  -- What a corpus that loads consists of: at least one phrase, and phrases that the matcher can use.
  abbrev pub UsableCorpus : List Phrase → Type 0
  UsableCorpus [] = ⊥
  UsableCorpus (p ∷ ps) = All Usable (p ∷ ps)

  some_phrases-UsableCorpus :
      (o : Outcome (List Phrase))
      → Holds (All Usable) o
      → Holds UsableCorpus (some_phrases read_row pack langs o)
  unfolding some_phrases
  some_phrases-UsableCorpus (Outcome.loaded []) h = tt
  some_phrases-UsableCorpus (Outcome.loaded (p ∷ ps)) h = h
  some_phrases-UsableCorpus (Outcome.refused e) h = tt

  -- A corpus file either is refused, or gives at least one phrase; each phrase has tokens, which are
  -- those of its text, with the joined text and the phonetic key of these, and a tier of A, B, C
  -- or X.
  pub read_corpus-UsableCorpus :
      (file : Option (List Text)) → Holds UsableCorpus (read_corpus read_row pack langs file)
  unfolding read_corpus
  read_corpus-UsableCorpus none = tt
  read_corpus-UsableCorpus (some lines) =
      some_phrases-UsableCorpus (read_entries read_row pack langs 1 [] [] lines)
        (read_entries-All 1 [] [] lines tt)
