-- ===== src/Matcher/Levenshtein/Correct.antt =====
-- `levenshtein` computes the edit distance, capped.
use native.Mathlib.Decide.{dec_lt}
use voip.Prelude.{
  ℕ, zero, suc, ◌+◌, ◌-◌, ◌≤◌, ◌<◌, min, max, ◌≡◌, List, [], ◌∷◌, arith, false, length, get_or,
  refl, replicate, Bool-cases, inl, inr, ltb, leb, ltb→lt, ltb-false, ◌==◌, if◌then◌else◌,
  length-replicate, same_text, same_text-eq,
}
use voip.Matcher.Levenshtein.{rows, range, levenshtein, fill_row}
use voip.Matcher.Levenshtein.Reference.{
  edit_distance, prefix_distance, prefix_distance-ge, prefix_distance-one, prefix_distance-row,
  prefix_distance-zero,
}
use voip.Matcher.Levenshtein.Band.{Row, Scanned, fill_row-Scanned, end_row-Row}

module _ (a b : List ℕ) (cap : ℕ) where
  -- A row whose band lies above the cap lies above it everywhere.
  row_above :
      (i best : ℕ) (result : List ℕ × ℕ)
      → Scanned a b cap i (max 1 (suc i - cap) - 1) (min (length b) (suc i + cap)) best result
      → 1 ≤ length b
      → cap < result.1
      → (j : ℕ) → j ≤ length b
      → cap + 1 ≤ prefix_distance a b (suc i) j
  row_above i best result s nonempty above zero le = elim (dec_lt cap (suc i)) [
    | yes late ↦ omega (arith, prefix_distance-zero a b (suc i))
    | no early ↦
        absurd (omega (arith, s.least 1 (omega arith) (omega arith), prefix_distance-one a b i))
  ]
  row_above i best result s nonempty above (suc j) le = elim (dec_lt (suc i + cap) (suc j)) [
    | yes right ↦ omega (arith, prefix_distance-ge a b (suc i) (suc j))
    | no near ↦ elim (dec_lt (suc j + cap) (suc i)) [
      | yes left ↦ omega (arith, prefix_distance-ge a b (suc i) (suc j))
      | no inside ↦ omega (arith, s.least (suc j) (omega arith) (omega arith))
    ]
  ]

  rows-eq-min :
      (n i : ℕ) (prev cur : List ℕ)
      → i + n ≡ length a
      → length a ≤ length b + cap
      → length b ≤ length a + cap
      → 1 ≤ length b
      → Row a b cap i prev
      → length cur ≡ length b + 1
      → rows a b cap n (suc i) prev cur ≡ min (edit_distance a b) (cap + 1)
  unfolding rows edit_distance
  rows-eq-min zero i prev cur e h1 h2 h3 row size =
      let e' : i ≡ length a = omega arith in
      let agrees = row.band (length b) (omega arith) (omega arith) (omega arith) in
      rw (← e') (ground (arith, agrees))
  rows-eq-min (suc n) i prev cur e h1 h2 h3 row size =
      let s = fill_row-Scanned a b cap i prev cur row size (omega arith) h3 in
      let best = (fill_row a b cap (suc i) prev cur).1 in
      elim (Bool-cases (ltb cap best)) [
        | inl above ↦
            let all_above = row_above i (cap + 1) _ s h3 (ltb→lt cap best above) in
            let last =
              prefix_distance-row a b (cap + 1) (length b) (suc i) all_above n (length a)
                (omega arith) (length b) (omega arith) in
            rw above (omega arith)
        | inr near ↦ rw near (
            rows-eq-min n (suc i) _ prev (omega arith) h1 h2 h3 (end_row-Row a b cap i _ s.filled)
              row.size)
      ]

  range-row : (n lo j : ℕ) → j < n → get_or (range n lo) j 0 ≡ lo + j
  unfolding range
  range-row zero lo j h = elim h [ ]
  range-row (suc n) lo zero h = omega arith
  range-row (suc n) lo (suc j) h = omega (arith, range-row n (suc lo) j (omega arith))

  length-range : (n lo : ℕ) → length (range n lo) ≡ n
  unfolding range
  length-range zero lo = refl
  length-range (suc n) lo = omega (arith, length-range n (suc lo))

  first_row : Row a b cap 0 (range (length b + 1) 0)
  unfolding prefix_distance
  first_row = record {
    size = length-range (length b + 1) 0;
    band = λ j le up low. omega (arith, range-row (length b + 1) 0 j (omega arith));
  }

prefix_distance_self : (a : List ℕ) (i : ℕ) → prefix_distance a a i i ≡ 0
unfolding prefix_distance
prefix_distance_self a zero = refl
prefix_distance_self a (suc i) = ground (arith, prefix_distance_self a i)

edge_case : (d n cap : ℕ) → d ≡ n → (if leb n cap then n else cap + 1) ≡ min d (cap + 1)
edge_case d n cap e = ground arith

suc_not_zero : (n : ℕ) → (suc n == 0) ≡ false
suc_not_zero n = ground arith

filled_case :
    (a b : List ℕ) (cap : ℕ)
    → length a ≤ length b + cap
    → length b ≤ length a + cap
    → (if length a == 0
        then (if leb (length b) cap then length b else cap + 1)
        else if length b == 0
        then (if leb (length a) cap then length a else cap + 1)
        else rows a b cap (length a) 1 (range (length b + 1) 0) (replicate (length b + 1) 0))
      ≡ min (edit_distance a b) (cap + 1)
unfolding edit_distance prefix_distance
filled_case [] b cap h1 h2 = edge_case (length b) (length b) cap refl
filled_case (x ∷ a) [] cap h1 h2 =
    rw (suc_not_zero (length a)) (edge_case _ (suc (length a)) cap refl)
filled_case (x ∷ a) (y ∷ b) cap h1 h2 = rw (suc_not_zero (length a)) (
    rw (suc_not_zero (length b)) (
      rows-eq-min (x ∷ a) (y ∷ b) cap (suc (length a)) 0 _ _ (omega arith) h1 h2 (omega arith)
        (first_row (x ∷ a) (y ∷ b) cap) (length-replicate _ 0)))

-- The capped, banded computation returns the least number of edits if that is at most the cap,
-- and cap + 1 otherwise.
pub levenshtein-eq-min :
    (a b : List ℕ) (cap : ℕ) → levenshtein a b cap ≡ min (edit_distance a b) (cap + 1)
unfolding levenshtein edit_distance
levenshtein-eq-min a b cap = elim (Bool-cases (same_text a b)) [
  | inl same ↦ rw (same, ← same_text-eq a b same, prefix_distance_self) (omega arith)
  | inr other ↦
      rw other (elim (Bool-cases (ltb cap (max (length a - length b) (length b - length a)))) [
        | inl far ↦
            rw far (omega (arith, ltb→lt _ _ far, prefix_distance-ge a b (length a) (length b)))
        | inr near ↦ rw near (
            filled_case a b cap (omega (arith, ltb-false _ _ near))
              (omega (arith, ltb-false _ _ near)))
      ])
]
