-- ===== src/Actuator/Lines.antt =====
-- The methods of `str` that phraseguard/actuator.py reads the output of Asterisk with.
use voip.Prelude.{ℕ, Bool, true, false, ◌&&◌, ◌||◌, List, [], ◌∷◌, leb, ◌==◌, if◌then◌else◌, Text}

-- str.isspace
unfoldable pub is_space : ℕ → Bool
is_space c =
    (leb 9 c && leb c 13)
    || (leb 28 c && leb c 32)
    || c == 133
    || c == 160
    || c == 5760
    || (leb 8192 c && leb c 8202)
    || c == 8232
    || c == 8233
    || c == 8239
    || c == 8287
    || c == 12288

-- s.lstrip() and s.strip()
unfoldable pub lstrip : Text → Text
lstrip [] = []
lstrip (c ∷ cs) = let rest = lstrip cs in if is_space c then rest else c ∷ cs

unfoldable pub rstrip : Text → Text
rstrip [] = []
rstrip (c ∷ cs) = elim (rstrip cs) [
  | [] ↦ (if is_space c then [] else c ∷ [])
  | d ∷ ds ↦ c ∷ d ∷ ds
]

unfoldable pub strip : Text → Text
strip s = rstrip (lstrip s)

-- The first piece and the others.
unfoldable pub pieces : ℕ → Text → Text × List Text
pieces sep [] = ([], [])
pieces sep (c ∷ cs) =
    let (first, others) = pieces sep cs in
    if c == sep then ([], first ∷ others) else (c ∷ first, others)

-- s.split(sep)
unfoldable pub split_on : ℕ → Text → List Text
split_on sep s = let (first, others) = pieces sep s in first ∷ others

-- s.startswith(prefix)
unfoldable pub starts_with : Text → Text → Bool
starts_with [] s = true
starts_with (p ∷ ps) [] = false
starts_with (p ∷ ps) (c ∷ cs) = p == c && starts_with ps cs

-- chr(c) in s
unfoldable pub has_char : ℕ → Text → Bool
has_char c [] = false
has_char c (d ∷ ds) = c == d || has_char c ds

-- s.rsplit(chr(c), 1)[0]; the whole of `s` where `c` is not in it.
unfoldable pub before_last : ℕ → Text → Text
before_last c [] = []
before_last c (d ∷ ds) =
    let rest = before_last c ds in
    if has_char c ds then d ∷ rest else if c == d then [] else d ∷ rest

-- s.lstrip(chr(c))
unfoldable pub drop_leading : ℕ → Text → Text
drop_leading c [] = []
drop_leading c (d ∷ ds) = let rest = drop_leading c ds in if c == d then rest else d ∷ ds
