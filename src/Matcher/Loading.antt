-- ===== src/Matcher/Loading.antt =====
-- `Corpus.load` and `reload_if_changed` of phraseguard/matcher.py. Parameters are the fields of a
-- line as csv.reader gives them, `none` where it raises, the packing of code points into a string,
-- and the contents of the file: its lines, `none` where it cannot be read. Letters outside ASCII
-- keep their case here.
pub mod Reload
pub mod Rows
pub mod Tests
use voip.Prelude.{
  ℕ, suc, ◌+◌, max, String, Bool, true, false, ◌&&◌, ◌||◌, not, List, [], ◌∷◌, ◌++◌, map, Option,
  none, some, ltb, ◌==◌, if◌then◌else◌, length, get_or, Text, codes, same_text, join, member,
  Text-eq,
}
use voip.Matcher.Normalize.{lower, normalize}
use voip.Matcher.Phrases.{Tier, Anchor, Phrase, same_tier}
use voip.Matcher.Index.{Index, build_index}
use voip.Metaphone.Word.{upper_char}
use voip.Metaphone.Loop.{phonetic_key, is_empty}
use voip.Actuator.Lines.{strip, starts_with}

-- The reasons of CorpusError, with the number of the line; `unreadable` is an OSError, and `unparsable` a
-- csv.Error.
pub data LoadError : Type 0 where
  too_few unknown_tier unknown_anchor empty_phrase normalises_to_nothing duplicate : ℕ → LoadError
  unparsable : ℕ → LoadError
  no_phrases unreadable : LoadError

pub data Outcome (A : Type 0) : Type 0 where
  loaded : A → Outcome A
  refused : LoadError → Outcome A

unfoldable pub tier_named : Text → Option Tier
tier_named t =
    if same_text t (codes "A")
    then some Tier.a
    else if same_text t (codes "B")
    then some Tier.b
    else if same_text t (codes "C")
    then some Tier.c
    else if same_text t (codes "X")
    then some Tier.x
    else none

unfoldable pub anchor_named : Text → Option Anchor
anchor_named t =
    if same_text t (codes "brand")
    then some Anchor.brand
    else if same_text t (codes "pair")
    then some Anchor.pair
    else if same_text t (codes "seq")
    then some Anchor.seq
    else none

-- A line that is blank, a comment or the header.
unfoldable pub is_skipped : Text → Bool
is_skipped line =
    is_empty (strip line) || (starts_with (codes "#") line || starts_with (codes ">") line)

-- The column `i`, stripped; empty where there is none.
unfoldable pub column : List Text → ℕ → Text
column row i = strip (get_or row i [])

-- (lang, p.joined) in seen
unfoldable pub seen_before : Text → Text → List (Text × Text) → Bool
seen_before lang joined [] = false
seen_before lang joined ((l, j) ∷ seen) =
    (same_text lang l && same_text joined j) || seen_before lang joined seen

module _ (read_row : Text → Option (List Text)) (pack : Text → String) (langs : List Text) where
  -- Phrase(tier, category, lang, anchor, text, notes, lineno)
  unfoldable pub new_phrase : Tier → Anchor → List Text → ℕ → Phrase
  new_phrase tier anchor row lineno =
      let tokens = normalize (column row 4) in
      record {
        tier = tier;
        category = pack (map upper_char (column row 1));
        lang = pack (lower (column row 2));
        anchor = anchor;
        text = column row 4;
        notes = column row 5;
        row = lineno;
        tokens = tokens;
        joined = join tokens;
        pkey = phonetic_key (join tokens);
        triggers = [];
      }

  -- A row whose tier and anchor are known: `none` is a row of another language.
  unfoldable pub read_phrase :
      Tier → Anchor → List Text → ℕ → List (Text × Text) → Outcome (Option Phrase)
  read_phrase tier anchor row lineno seen =
      let p = new_phrase tier anchor row lineno in
      let lang = lower (column row 2) in
      if is_empty (column row 4)
      then refused (LoadError.empty_phrase lineno)
      else if not (member lang langs)
      then loaded none
      else if length p.tokens == 0
      then refused (LoadError.normalises_to_nothing lineno)
      else if seen_before lang p.joined seen
      then refused (LoadError.duplicate lineno)
      else loaded (some p)

  unfoldable pub read_fields : List Text → ℕ → List (Text × Text) → Outcome (Option Phrase)
  read_fields row lineno seen =
      if ltb (length row) 5
      then refused (LoadError.too_few lineno)
      else elim (tier_named (map upper_char (column row 0))) [
        | none ↦ refused (LoadError.unknown_tier lineno)
        | some tier ↦ elim (anchor_named (lower (column row 3))) [
          | none ↦ refused (LoadError.unknown_anchor lineno)
          | some anchor ↦ read_phrase tier anchor row lineno seen
        ]
      ]

  unfoldable pub read_entry : Text → ℕ → List (Text × Text) → Outcome (Option Phrase)
  read_entry line lineno seen =
      let entry : Outcome (Option Phrase) = elim (read_row line) [
        | none ↦ refused (LoadError.unparsable lineno)
        | some row ↦ read_fields row lineno seen
      ] in
      if is_skipped line then loaded none else entry

  -- row[2].strip().lower() of a line that was read
  unfoldable pub lang_of : Text → Text
  lang_of line = elim (read_row line) [ none ↦ [] | some row ↦ lower (column row 2) ]

  -- The loop over the lines, with the phrases so far.
  unfoldable pub read_entries :
      ℕ → List (Text × Text) → List Phrase → List Text → Outcome (List Phrase)
  read_entries lineno seen phrases [] = loaded phrases
  read_entries lineno seen phrases (line ∷ lines) = elim (read_entry line lineno seen) [
    | refused e ↦ refused e
    | loaded none ↦ read_entries (suc lineno) seen phrases lines
    | loaded (some p) ↦
        read_entries (suc lineno) ((lang_of line, p.joined) ∷ seen) (phrases ++ (p ∷ [])) lines
  ]

  -- `if not phrases` after the loop
  unfoldable pub some_phrases : Outcome (List Phrase) → Outcome (List Phrase)
  some_phrases (loaded []) = refused LoadError.no_phrases
  some_phrases (loaded (p ∷ ps)) = loaded (p ∷ ps)
  some_phrases (refused e) = refused e

  unfoldable pub read_corpus : Option (List Text) → Outcome (List Phrase)
  read_corpus none = refused LoadError.unreadable
  read_corpus (some lines) = some_phrases (read_entries 1 [] [] lines)

-- max([len(p.tokens) + 1 for p in phrases] + [4])
unfoldable pub widest : List Phrase → ℕ
widest [] = 4
widest (p ∷ ps) = max (length p.tokens + 1) (widest ps)

pub record State : Type 0 where
  pub phrases : List Phrase
  pub by_index : Index
  pub max_span : ℕ
  pub mtime : ℕ
  pub load_error : Option LoadError
  pub reload_count : ℕ

-- The end of `load`, and the count of the reload; `mtime` is read anew after the file was.
unfoldable pub install : List Phrase → ℕ → State → State
install phrases mtime s = record {
  phrases = phrases;
  by_index = build_index phrases;
  max_span = widest phrases;
  mtime = mtime;
  load_error = none;
  reload_count = suc s.reload_count;
}

-- A reload that failed.
unfoldable pub keep : LoadError → ℕ → State → State
keep e mtime s = record {
  phrases = s.phrases;
  by_index = s.by_index;
  max_span = s.max_span;
  mtime = mtime;
  load_error = some e;
  reload_count = s.reload_count;
}

unfoldable pub stat_failed : State → State
stat_failed s = record {
  phrases = s.phrases;
  by_index = s.by_index;
  max_span = s.max_span;
  mtime = s.mtime;
  load_error = some LoadError.unreadable;
  reload_count = s.reload_count;
}

unfoldable pub settle_load : Outcome (List Phrase) → ℕ → ℕ → State → Bool × State
settle_load (loaded phrases) before after s = (true, install phrases after s)
settle_load (refused e) before after s = (false, keep e before s)

-- `stat` is the mtime before the load, `none` where it cannot be read; `after` the one that `load`
-- reads at its end; `outcome` what the load gives.
unfoldable pub reload_if_changed :
    Option ℕ → ℕ → Outcome (List Phrase) → Bool → State → Bool × State
reload_if_changed none after outcome force s = (false, stat_failed s)
reload_if_changed (some stat) after outcome force s =
    if not force && (stat == s.mtime && not (length s.phrases == 0))
    then (false, s)
    else settle_load outcome stat after s
