-- ===== src/Matcher/Window/Bisect.antt =====
-- On a list in order, the binary search finds the first element that is not below `x`.
use voip.Prelude.{
  ℕ, zero, suc, ◌+◌, ◌-◌, ◌/◌, ◌≤◌, ◌<◌, List, arith, ltb, ltb→lt, ltb-false, length, get_or,
  Bool-cases, inl, inr,
}
use voip.Matcher.Window.{bisect_left}

-- Each element is at most those behind it.
abbrev pub IsSorted : List ℕ → Type 0
IsSorted xs = (i j : ℕ) → i ≤ j → j < length xs → get_or xs i 0 ≤ get_or xs j 0

-- `k` is where `x` would be inserted, left of its equals.
pub record Cut (xs : List ℕ) (x k : ℕ) : Type 0 where
  pub within : k ≤ length xs
  pub below : (i : ℕ) → i < k → get_or xs i 0 < x
  pub above : (i : ℕ) → k ≤ i → i < length xs → x ≤ get_or xs i 0

module _ (xs : List ℕ) (x : ℕ) (sorted : IsSorted xs) where
  search-Cut :
      (fuel lo hi : ℕ)
      → lo ≤ hi
      → hi ≤ length xs
      → hi - lo ≤ fuel
      → ((i : ℕ) → i < lo → get_or xs i 0 < x)
      → ((i : ℕ) → hi ≤ i → i < length xs → x ≤ get_or xs i 0)
      → Cut xs x (bisect_left fuel xs x lo hi)
  unfolding bisect_left
  search-Cut zero lo hi h1 h2 h3 low high = record {
    within = omega arith;
    below = low;
    above = λ i le lt. high i (omega arith) lt;
  }
  search-Cut (suc fuel) lo hi h1 h2 h3 low high = elim (Bool-cases (ltb lo hi)) [
    | inr done ↦ rw done (record {
      within = omega arith;
      below = low;
      above = λ i le lt. high i (omega (arith, ltb-false lo hi done)) lt;
    })
    | inl more ↦ rw more (elim (Bool-cases (ltb (get_or xs ((lo + hi) / 2) 0) x)) [
      | inl right ↦
          let lt = ltb→lt lo hi more in
          rw right (
            search-Cut fuel ((lo + hi) / 2 + 1) hi (omega arith) h2 (omega arith)
              (λ i le.
                let s = sorted i ((lo + hi) / 2) (omega arith) (omega arith) in
                omega (arith, ltb→lt _ _ right))
              high)
      | inr left ↦
          let lt = ltb→lt lo hi more in
          rw left (
            search-Cut fuel lo ((lo + hi) / 2) (omega arith) (omega arith) (omega arith) low
              (λ i le l.
                let s = sorted ((lo + hi) / 2) i le l in omega (arith, ltb-false _ _ left)))
    ])
  ]

  -- In a sorted list, the bisection of the whole list finds the place left of which every element
  -- is smaller than `x`, and from which on none is.
  pub bisect_left-Cut : Cut xs x (bisect_left (length xs) xs x 0 (length xs))
  bisect_left-Cut =
      search-Cut (length xs) 0 (length xs) (omega arith) (omega arith) (omega arith)
        (λ i h. absurd (omega arith)) (λ i h k. absurd (omega arith))
