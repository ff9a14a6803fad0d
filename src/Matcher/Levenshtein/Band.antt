-- ===== src/Matcher/Levenshtein/Band.antt =====
-- One row of the banded table against the recurrence: what the band holds agrees with it, up to
-- the cap, and the cells beside the band may be read as "further apart than the cap".
use mathlib.Core.Path.{subst}
use native.Mathlib.Decide.{ℕ_discrete, dec_lt}
use voip.Prelude.{
  ℕ, zero, suc, ◌+◌, ◌-◌, ◌≤◌, ◌<◌, min, max, ◌≡◌, List, arith, ltb, if◌then◌else◌, length, get_or,
  set, length-set, get_or-set_self, get_or-set_ne, refl, sym, inl, inr, ◌⊎◌, ◌∙◌, true, false,
}
use voip.Matcher.Levenshtein.{cell, scan_row, start_row, end_row, fill_row}
use voip.Matcher.Levenshtein.Reference.{prefix_distance, prefix_distance-ge}

module _ (a b : List ℕ) (cap : ℕ) where
  abbrev pub Agrees : ℕ → ℕ → Type 0
  Agrees x d = min x (cap + 1) ≡ min d (cap + 1)

  -- Row `i` as the next row may read it.
  pub record Row (i : ℕ) (r : List ℕ) : Type 0 where
    pub size : length r ≡ length b + 1
    pub band :
        (j : ℕ)
        → j ≤ length b
        → j ≤ i + cap + 1
        → i ≤ j + cap + 1
        → Agrees (get_or r j 0) (prefix_distance a b i j)

  -- Row `i + 1` up to column `k`.
  pub record Filled (i k : ℕ) (r : List ℕ) : Type 0 where
    pub size : length r ≡ length b + 1
    pub band :
        (j : ℕ)
        → j ≤ k
        → suc i ≤ j + cap + 1
        → Agrees (get_or r j 0) (prefix_distance a b (suc i) j)

  pub cell-Agrees :
      (i k : ℕ) (prev cur : List ℕ)
      → Row i prev
      → Filled i k cur
      → suc k ≤ length b
      → k ≤ i + cap
      → i ≤ k + cap
      → Agrees (cell (get_or a i 0) b prev cur (suc k)) (prefix_distance a b (suc i) (suc k))
  unfolding cell prefix_distance
  cell-Agrees i k prev cur row filled h1 h2 h3 =
      let e : suc k - 1 ≡ k = omega arith in
      let p = row.band k (omega arith) (omega arith) (omega arith) in
      let q = row.band (suc k) (omega arith) (omega arith) (omega arith) in
      let r = filled.band k (omega arith) (omega arith) in rw e (ground (arith, p, q, r))

  Filled-set :
      (i k d : ℕ) (cur : List ℕ)
      → Filled i k cur
      → suc k ≤ length b
      → Agrees d (prefix_distance a b (suc i) (suc k))
      → Filled i (suc k) (set cur (suc k) d)
  Filled-set i k d cur f h agrees = record { size = length-set cur (suc k) d ∙ f.size; band = band }
    where
      band :
          (j : ℕ)
          → j ≤ suc k
          → suc i ≤ j + cap + 1
          → Agrees (get_or (set cur (suc k) d) j 0) (prefix_distance a b (suc i) j)
      band j le lo = elim (ℕ_discrete (suc k) j) [
        | yes e ↦ rw (← e) (rw (get_or-set_self cur (suc k) d 0 (omega (arith, f.size))) agrees)
        | no ne ↦ rw (get_or-set_ne cur (suc k) j d 0 ne) (f.band j (omega arith) lo)
      ]

  -- What the loop over one row gives: the row, and a bound on its best value.
  pub record Scanned (i k m : ℕ) (best : ℕ) (result : List ℕ × ℕ) : Type 0 where
    pub filled : Filled i m result.0
    pub no_worse : result.1 ≤ best
    pub least : (j : ℕ) → k < j → j ≤ m → min result.1 (cap + 1) ≤ prefix_distance a b (suc i) j

  Scanned-step :
      (i k m best d : ℕ) (result : List ℕ × ℕ)
      → Agrees d (prefix_distance a b (suc i) (suc k))
      → Scanned i (suc k) m (if ltb d best then d else best) result
      → Scanned i k m best result
  Scanned-step i k m best d result agrees rest = record {
    filled = rest.filled;
    no_worse = ground (arith, rest.no_worse);
    least = least;
  }
    where
      least : (j : ℕ) → k < j → j ≤ m → min result.1 (cap + 1) ≤ prefix_distance a b (suc i) j
      least j lt le = elim (ℕ_discrete (suc k) j) [
        | yes e ↦ rw (← e) (ground (arith, rest.no_worse, agrees))
        | no ne ↦ rest.least j (omega arith) le
      ]

  pub scan_row-Scanned :
      (i : ℕ) (prev : List ℕ)
      → Row i prev
      → (n k m : ℕ) (cur : List ℕ) (best : ℕ) → Filled i k cur
      → k + n ≡ m
      → m ≤ length b
      → m ≤ suc i + cap
      → i ≤ k + cap
      → Scanned i k m best (scan_row (get_or a i 0) b prev n (suc k) cur best)
  unfolding scan_row
  scan_row-Scanned i prev row zero k m cur best f e h1 h2 h3 =
      let e' : k ≡ m = omega arith in
      record {
        filled = subst (λ t. Filled i t cur) e' f;
        no_worse = omega arith;
        least = λ j lt le. absurd (omega arith);
      }
  scan_row-Scanned i prev row (suc n) k m cur best f e h1 h2 h3 =
      let d = cell (get_or a i 0) b prev cur (suc k) in
      let agrees = cell-Agrees i k prev cur row f (omega arith) (omega arith) (omega arith) in
      Scanned-step i k m best d _ agrees (
        scan_row-Scanned i prev row n (suc k) m (set cur (suc k) d) (if ltb d best then d else best)
          (Filled-set i k d cur f (omega arith) agrees) (omega arith) h1 h2 (omega arith))

  far_Agrees :
      (i j : ℕ)
      → (suc (j + cap) ≤ i) ⊎ (suc (i + cap) ≤ j)
      → Agrees (cap + 1) (prefix_distance a b i j)
  far_Agrees i j h = let g = prefix_distance-ge a b i j in omega arith

  -- The cells before the band: column 0 is exact, one before a later band is out of reach.
  start_row-later :
      (i : ℕ) (cur : List ℕ)
      → length cur ≡ length b + 1
      → suc i ≤ length b + cap
      → cap < i
      → Filled i (suc i - cap - 1) (set (set cur 0 (suc i)) (suc i - cap - 1) (cap + 1))
  start_row-later i cur size h late = record {
    size = length-set _ lo (cap + 1) ∙ length-set cur 0 (suc i) ∙ size;
    band = λ j le reach.
        let e : lo ≡ j = omega arith in
        rw (← e) (
          rw
            (get_or-set_self (set cur 0 (suc i)) lo (cap + 1) 0
              (omega (arith, length-set cur 0 (suc i))))
            (far_Agrees (suc i) lo (inl (omega arith))));
  }
    where
      lo : ℕ
      lo = suc i - cap - 1

  start_row-first :
      (i : ℕ) (cur : List ℕ) → length cur ≡ length b + 1 → Filled i 0 (set cur 0 (suc i))
  unfolding prefix_distance
  start_row-first i cur size = record {
    size = length-set cur 0 (suc i) ∙ size;
    band = λ j le reach.
        let e : 0 ≡ j = omega arith in
        rw (← e) (rw (get_or-set_self cur 0 (suc i) 0 (omega arith)) refl);
  }

  start_row-Filled :
      (i : ℕ) (cur : List ℕ)
      → length cur ≡ length b + 1
      → suc i ≤ length b + cap
      → Filled i (max 1 (suc i - cap) - 1) (start_row cap (suc i) cur)
  unfolding start_row
  start_row-Filled i cur size h = elim (dec_lt cap i) [
    | yes late ↦
        let e : max 1 (suc i - cap) ≡ suc i - cap = omega arith in
        let t : ltb 1 (suc i - cap) ≡ true = ground arith in
        rw e (rw t (start_row-later i cur size h late))
    | no early ↦ let e : max 1 (suc i - cap) ≡ 1 = omega arith in rw e (start_row-first i cur size)
  ]

  end_row-inside :
      (i : ℕ) (cur : List ℕ)
      → suc i + cap < length b
      → Filled i (suc i + cap) cur
      → Row (suc i) (set cur (suc i + cap + 1) (cap + 1))
  end_row-inside i cur h f = record {
    size = length-set cur (suc i + cap + 1) (cap + 1) ∙ f.size;
    band = λ j le up low. elim (ℕ_discrete (suc i + cap + 1) j) [
      | yes e ↦ rw (← e) (
          rw (get_or-set_self cur (suc i + cap + 1) (cap + 1) 0 (omega (arith, f.size)))
            (far_Agrees (suc i) _ (inr (omega arith))))
      | no ne ↦ rw (get_or-set_ne cur _ j (cap + 1) 0 ne) (f.band j (omega arith) low)
    ];
  }

  pub end_row-Row :
      (i : ℕ) (cur : List ℕ)
      → Filled i (min (length b) (suc i + cap)) cur
      → Row (suc i) (end_row cap (length b) (suc i) cur)
  unfolding end_row
  end_row-Row i cur f = elim (dec_lt (suc i + cap) (length b)) [
    | yes inside ↦
        let e : min (length b) (suc i + cap) ≡ suc i + cap = omega arith in
        let t : ltb (suc i + cap) (length b) ≡ true = ground arith in
        rw e (rw t (end_row-inside i cur inside (rw e at f)))
    | no beyond ↦
        let e : min (length b) (suc i + cap) ≡ length b = omega arith in
        let t : ltb (length b) (length b) ≡ false = ground arith in
        rw e (rw t (record { size = f.size; band = λ j le up low. f.band j (omega arith) low }))
  ]

  -- A whole row: it agrees with the recurrence, and its best value bounds every column of the
  -- band from below.
  pub fill_row-Scanned :
      (i : ℕ) (prev cur : List ℕ)
      → Row i prev
      → length cur ≡ length b + 1
      → suc i ≤ length b + cap
      → 1 ≤ length b
      → Scanned i
          (max 1 (suc i - cap) - 1)
          (min (length b) (suc i + cap))
          (cap + 1)
          (fill_row a b cap (suc i) prev cur)
  unfolding fill_row
  fill_row-Scanned i prev cur row size h nonempty =
      let e : suc i - 1 ≡ i = omega arith in
      let l : max 1 (suc i - cap) ≡ suc (max 1 (suc i - cap) - 1) = omega arith in
      let lo = max 1 (suc i - cap) in
      let m = min (length b) (suc i + cap) in
      let row' = start_row cap (suc i) cur in
      let scanned =
        scan_row-Scanned i prev row (m + 1 - lo) (lo - 1) m row' (cap + 1)
          (start_row-Filled i cur size h) (omega arith) (omega arith) (omega arith) (omega arith) in
      rw e (
        subst
          (λ t.
            Scanned i (lo - 1) m (cap + 1)
              (scan_row (get_or a i 0) b prev (m + 1 - lo) t row' (cap + 1)))
          (sym l) scanned)
