-- ===== src/Matcher/Normalize.antt =====
-- `normalize` of phraseguard/matcher.py: lower case, punctuation stripped, number words folded.
use voip.Prelude.{
  ℕ, ◌+◌, Bool, true, false, ◌&&◌, ◌||◌, List, [], ◌∷◌, ◌++◌, map, none, some, leb, ◌≡◌, refl,
  same_text, ◌==◌, if◌then◌else◌, Text, codes, Text-eq,
}
use voip.Prelude.Dict

-- str.lower() of one character. Two characters outside ASCII have a lower case with an ASCII
-- letter, U+212A and U+0130; that of any other stays outside ASCII, and is left as it is.
unfoldable pub lower_char : ℕ → Text
lower_char c =
    if leb b'A' c && leb c b'Z'
    then (c + 32) ∷ []
    else if c == 0x212a
    then b'k' ∷ []
    else if c == 0x130
    then b'i' ∷ 0x307 ∷ []
    else c ∷ []

unfoldable pub lower : Text → Text
unfolding lower_char
lower [] = []
lower (c ∷ cs) = lower_char c ++ lower cs

-- text.replace("[unk]", " ")
unfoldable pub replace_unk : Text → Text
replace_unk (c ∷ d ∷ e ∷ f ∷ g ∷ rest) =
    elim ((c == b'[' && d == b'u') && ((e == b'n' && f == b'k') && g == b']')) [
      | true ↦ 32 ∷ replace_unk rest
      | false ↦ c ∷ replace_unk (d ∷ e ∷ f ∷ g ∷ rest)
    ]
replace_unk text = text

unfoldable pub is_apostrophe : ℕ → Bool
is_apostrophe c = c == 0x2019 || (c == 39 || c == 96)

unfoldable pub delete_apostrophes : Text → Text
unfolding is_apostrophe
delete_apostrophes [] = []
delete_apostrophes (c ∷ cs) =
    let rest = delete_apostrophes cs in if is_apostrophe c then rest else c ∷ rest

-- [a-z0-9]
unfoldable pub is_word : ℕ → Bool
is_word c = (leb b'a' c && leb c b'z') || (leb b'0' c && leb c b'9')

-- _NONWORD.sub(" ", text): `gap` says that the run before has its space already.
unfoldable pub squash : Bool → Text → Text
unfolding is_word
squash gap [] = []
squash gap (c ∷ cs) = elim (is_word c) [
  | true ↦ c ∷ squash false cs
  | false ↦ (let rest = squash true cs in if gap then rest else 32 ∷ rest)
]

unfoldable pub flush : Text → List Text → List Text
flush [] ws = ws
flush (c ∷ w) ws = (c ∷ w) ∷ ws

-- text.split(), where the only white space left is the space; `w` is the word so far.
unfoldable pub split : Text → Text → List Text
unfolding flush
split w [] = flush w []
split w (c ∷ cs) = elim (c == 32) [
  | true ↦ flush w (split [] cs)
  | false ↦ split (w ++ (c ∷ [])) cs
]

abbrev pub number_words : List (Text × Text)
number_words =
    (codes "zero", codes "0")
    ∷ (codes "oh", codes "0")
    ∷ (codes "one", codes "1")
    ∷ (codes "two", codes "2")
    ∷ (codes "three", codes "3")
    ∷ (codes "four", codes "4")
    ∷ (codes "five", codes "5")
    ∷ (codes "six", codes "6")
    ∷ (codes "seven", codes "7")
    ∷ (codes "eight", codes "8")
    ∷ (codes "nine", codes "9")
    ∷ (codes "ten", codes "10")
    ∷ (codes "eleven", codes "11")
    ∷ (codes "twelve", codes "12")
    ∷ (codes "thirteen", codes "13")
    ∷ (codes "fourteen", codes "14")
    ∷ (codes "fifteen", codes "15")
    ∷ (codes "sixteen", codes "16")
    ∷ (codes "seventeen", codes "17")
    ∷ (codes "eighteen", codes "18")
    ∷ (codes "nineteen", codes "19")
    ∷ (codes "twenty", codes "20")
    ∷ (codes "thirty", codes "30")
    ∷ (codes "forty", codes "40")
    ∷ (codes "fifty", codes "50")
    ∷ (codes "sixty", codes "60")
    ∷ (codes "seventy", codes "70")
    ∷ (codes "eighty", codes "80")
    ∷ (codes "ninety", codes "90")
    ∷ (codes "hundred", codes "100")
    ∷ (codes "thousand", codes "1000")
    ∷ []

-- _NUMBER_WORDS.get(t, t)
unfoldable pub fold_word : Text → Text
unfolding Dict.get
fold_word t = elim (Dict.get t number_words) [ none ↦ t | some digits ↦ digits ]

unfoldable pub normalize : Text → List Text
unfolding lower replace_unk delete_apostrophes squash split fold_word
normalize text =
    map fold_word (split [] (squash false (delete_apostrophes (replace_unk (lower text)))))

normalize_runs :
    normalize (codes "Don't send SIX [unk] gift-cards!")
    ≡ map codes ("dont" ∷ "send" ∷ "6" ∷ "gift" ∷ "cards" ∷ [])
unfolding normalize same_text
normalize_runs = refl
