-- ===== src/Matcher/Index.antt =====
-- `_build_index` of phraseguard/matcher.py: which phrases a token wakes.
pub mod Wakes
use voip.Prelude.{
  ℕ, suc, ◌+◌, String, Bool, true, false, ◌&&◌, ◌||◌, not, List, [], ◌∷◌, ◌++◌, map, Option, none,
  some, ltb, leb, ◌==◌, if◌then◌else◌, Text, codes, same_text, Text-eq, ℕ-eq, member, set_add,
}
use voip.Prelude.Dict
use voip.Prelude.Predicates.{sort_by}
use voip.Matcher.Phrases.{Phrase}
use voip.Metaphone.Loop.{phonetic_key, is_empty}

-- _STOPWORDS
abbrev pub stopwords : List String
stopwords =
    "a" ∷ "an" ∷ "and" ∷ "are" ∷ "as" ∷ "at" ∷ "be" ∷ "been" ∷ "by" ∷ "for" ∷ "from" ∷ "had" ∷ "has"
    ∷ "have" ∷ "he" ∷ "her" ∷ "his" ∷ "i" ∷ "if" ∷ "in" ∷ "is" ∷ "it" ∷ "its" ∷ "me" ∷ "my" ∷ "not"
    ∷ "of" ∷ "on" ∷ "or" ∷ "our" ∷ "out" ∷ "she" ∷ "that" ∷ "the" ∷ "their" ∷ "them" ∷ "then"
    ∷ "there" ∷ "these" ∷ "they" ∷ "this" ∷ "to" ∷ "up" ∷ "us" ∷ "was" ∷ "we" ∷ "were" ∷ "will"
    ∷ "with" ∷ "you" ∷ "your" ∷ []

abbrev pub trigger_df_max : ℕ
trigger_df_max = 12

-- a token, or "~" and a phonetic code -> the positions of the phrases that it wakes
abbrev pub Index : Type 0
Index = List (Text × List ℕ)

unfoldable pub positions : Index → Text → List ℕ
unfolding Dict.get
positions index key = elim (Dict.get key index) [ none ↦ [] | some ps ↦ ps ]

-- df[t]: the phrases that hold the token.
unfoldable pub document_frequency : List Phrase → Text → ℕ
document_frequency [] t = 0
document_frequency (p ∷ ps) t =
    let rest = document_frequency ps t in if member t p.tokens then suc rest else rest

-- set(tokens)
unfoldable pub unique : List Text → List Text
unique [] = []
unique (t ∷ ts) = set_add t (unique ts)

unfoldable pub is_stopword : Text → Bool
is_stopword t = member t (map codes stopwords)

unfoldable pub is_distinctive : List Phrase → Text → Bool
is_distinctive phrases t = not (is_stopword t) && leb (document_frequency phrases t) trigger_df_max

unfoldable pub distinctive : List Phrase → List Text → List Text
distinctive phrases [] = []
distinctive phrases (t ∷ ts) =
    let rest = distinctive phrases ts in if is_distinctive phrases t then t ∷ rest else rest

-- a < b
unfoldable pub text_before : Text → Text → Bool
text_before a [] = false
text_before [] (y ∷ ys) = true
text_before (x ∷ xs) (y ∷ ys) = ltb x y || (x == y && text_before xs ys)

-- min(uniq, key=lambda t: (df[t], t)), from the best so far.
unfoldable pub rarest : List Phrase → Text → List Text → Text
rarest phrases best [] = best
rarest phrases best (t ∷ ts) =
    let d = document_frequency phrases t in
    let e = document_frequency phrases best in
    rarest phrases (if ltb d e || (d == e && text_before t best) then t else best) ts

-- The fallback where no token is distinctive.
unfoldable pub or_rarest : List Phrase → List Text → List Text → List Text
or_rarest phrases (t ∷ ts) uniq = t ∷ ts
or_rarest phrases [] [] = []
or_rarest phrases [] (u ∷ us) = rarest phrases u us ∷ []

unfoldable pub triggers_of : List Phrase → Phrase → List Text
triggers_of phrases p =
    let uniq = unique p.tokens in or_rarest phrases (distinctive phrases uniq) uniq

-- index.setdefault(key, []).append(pos)
unfoldable pub append_position : Text → ℕ → Index → Index
append_position key pos index = Dict.put key (positions index key ++ (pos ∷ [])) index

unfoldable pub add_trigger : ℕ → Text → Index → Index
add_trigger pos t index =
    let index' = append_position t pos index in
    let pk = phonetic_key t in
    if is_empty pk || same_text pk t then index' else append_position (126 ∷ pk) pos index'

unfoldable pub add_triggers : ℕ → List Text → Index → Index
add_triggers pos [] index = index
add_triggers pos (t ∷ ts) index = add_triggers pos ts (add_trigger pos t index)

-- for pos, p in enumerate(phrases)
unfoldable pub index_from : List Phrase → ℕ → List Phrase → Index → Index
index_from all pos [] index = index
index_from all pos (p ∷ ps) index =
    index_from all (suc pos) ps (add_triggers pos (triggers_of all p) index)

-- set(positions)
unfoldable pub distinct : List ℕ → List ℕ
distinct [] = []
distinct (n ∷ ns) = set_add n (distinct ns)

-- index[k] = sorted(set(index[k]))
unfoldable pub tidy : Index → Index
tidy [] = []
tidy ((key, ps) ∷ index) = (key, sort_by leb (distinct ps)) ∷ tidy index

unfoldable pub build_index : List Phrase → Index
build_index phrases = tidy (index_from phrases 0 phrases [])
