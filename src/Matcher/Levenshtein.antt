-- ===== src/Matcher/Levenshtein.antt =====
-- `levenshtein` of phraseguard/matcher.py: the edit distance of two texts with a hard cap,
-- computed row by row in a band of two reused arrays. A text is the list of its code points.
pub mod Reference
pub mod Band
pub mod Correct
use voip.Prelude.{
  ℕ, zero, suc, ◌+◌, ◌-◌, min, max, List, [], ◌∷◌, same_text, ltb, leb, ◌==◌, if◌then◌else◌, length,
  get_or, set, replicate,
}

-- list(range(lo, lo + n))
unfoldable pub range : ℕ → ℕ → List ℕ
range zero lo = []
range (suc n) lo = lo ∷ range n (suc lo)

-- The three candidates of one cell: diagonal, above, left.
unfoldable pub cell : ℕ → List ℕ → List ℕ → List ℕ → ℕ → ℕ
cell ca b prev cur j =
    let diagonal = get_or prev (j - 1) 0 in
    let d = if ca == get_or b (j - 1) 0 then diagonal else diagonal + 1 in
    let above = get_or prev j 0 + 1 in
    let d' = if ltb above d then above else d in
    let left = get_or cur (j - 1) 0 + 1 in if ltb left d' then left else d'

-- for j in range(lo, hi + 1): `n` is the count of rounds left; the row and its best value.
unfoldable pub scan_row : ℕ → List ℕ → List ℕ → ℕ → ℕ → List ℕ → ℕ → List ℕ × ℕ
scan_row ca b prev zero j cur best = (cur, best)
scan_row ca b prev (suc n) j cur best =
    let d = cell ca b prev cur j in
    scan_row ca b prev n (suc j) (set cur j d) (if ltb d best then d else best)

-- The cells that stand before the band of row `i`.
unfoldable pub start_row : ℕ → ℕ → List ℕ → List ℕ
start_row cap i cur =
    let lo = max 1 (i - cap) in
    let cur' = set cur 0 i in if ltb 1 lo then set cur' (lo - 1) (cap + 1) else cur'

-- The cell that stands behind the band of row `i`.
unfoldable pub end_row : ℕ → ℕ → ℕ → List ℕ → List ℕ
end_row cap lb i cur =
    let hi = min lb (i + cap) in if ltb hi lb then set cur (hi + 1) (cap + 1) else cur

unfoldable pub fill_row : List ℕ → List ℕ → ℕ → ℕ → List ℕ → List ℕ → List ℕ × ℕ
fill_row a b cap i prev cur =
    let lo = max 1 (i - cap) in
    let hi = min (length b) (i + cap) in
    scan_row (get_or a (i - 1) 0) b prev (hi + 1 - lo) lo (start_row cap i cur) (cap + 1)

-- for i in range(1, la + 1): `n` is the count of rounds left.
unfoldable pub rows : List ℕ → List ℕ → ℕ → ℕ → ℕ → List ℕ → List ℕ → ℕ
rows a b cap zero i prev cur = let d = get_or prev (length b) 0 in if leb d cap then d else cap + 1
rows a b cap (suc n) i prev cur =
    let (cur', best) = fill_row a b cap i prev cur in
    let rest = rows a b cap n (suc i) (end_row cap (length b) i cur') prev in
    if ltb cap best then cap + 1 else rest

unfoldable pub levenshtein : List ℕ → List ℕ → ℕ → ℕ
levenshtein a b cap =
    let la = length a in
    let lb = length b in
    if same_text a b
    then 0
    else if ltb cap (max (la - lb) (lb - la))
    then cap + 1
    else if la == 0
    then (if leb lb cap then lb else cap + 1)
    else if lb == 0
    then (if leb la cap then la else cap + 1)
    else rows a b cap la 1 (range (lb + 1) 0) (replicate (lb + 1) 0)
