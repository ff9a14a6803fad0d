-- ===== src/Matcher/Levenshtein/Reference.antt =====
-- The textbook recurrence of the edit distance, over prefixes, and its bounds.
use mathlib.Core.Path.{subst}
use voip.Prelude.{
  ℕ, zero, suc, ◌+◌, ◌≤◌, min, ◌≡◌, List, arith, ◌==◌, if◌then◌else◌, length, get_or, refl, ◌⊎◌,
  inl, inr, Bool-cases, ==_iff,
}

module _ (a b : List ℕ) where
  -- Whether the last characters of the prefixes of lengths i + 1 and j + 1 differ.
  abbrev pub cost : ℕ → ℕ → ℕ
  cost i j = if get_or a i 0 == get_or b j 0 then 0 else 1

  -- The distance of the first `i` characters of `a` and the first `j` of `b`.
  unfoldable pub prefix_distance : ℕ → ℕ → ℕ
  prefix_distance zero j = j
  prefix_distance (suc i) zero = suc i
  prefix_distance (suc i) (suc j) =
      min (prefix_distance i j + cost i j)
        (min (prefix_distance i (suc j) + 1) (prefix_distance (suc i) j + 1))

  -- The distance is at least the difference of the lengths.
  pub prefix_distance-ge : (i j : ℕ) → (i ≤ prefix_distance i j + j) × (j ≤ prefix_distance i j + i)
  unfolding prefix_distance
  prefix_distance-ge zero j = (omega arith, omega arith)
  prefix_distance-ge (suc i) zero = (omega arith, omega arith)
  prefix_distance-ge (suc i) (suc j) =
      let p = prefix_distance-ge i j in
      let q = prefix_distance-ge i (suc j) in
      let r = prefix_distance-ge (suc i) j in (omega arith, omega arith)

  pub prefix_distance-one : (i : ℕ) → prefix_distance (suc i) 1 ≤ suc i
  unfolding prefix_distance
  prefix_distance-one zero = ground arith
  prefix_distance-one (suc i) = omega (arith, prefix_distance-one i)

  next_row :
      (c n i : ℕ)
      → ((j : ℕ) → j ≤ n → c ≤ prefix_distance i j)
      → (j : ℕ) → j ≤ n
      → c ≤ prefix_distance (suc i) j
  unfolding prefix_distance
  next_row c n zero h zero le = omega (arith, h 0 (omega arith))
  next_row c n (suc i) h zero le = omega (arith, h 0 (omega arith))
  next_row c n i h (suc j) le =
      omega (arith, h j (omega arith), h (suc j) le, next_row c n i h j (omega arith))

  -- Once a whole row lies at `c` or above, all later rows do.
  pub prefix_distance-row :
      (c n i : ℕ)
      → ((j : ℕ) → j ≤ n → c ≤ prefix_distance i j)
      → (k m : ℕ) → i + k ≡ m
      → (j : ℕ) → j ≤ n
      → c ≤ prefix_distance m j
  prefix_distance-row c n i h zero m e j le = let e' : i ≡ m = omega arith in rw (← e') (h j le)
  prefix_distance-row c n i h (suc k) m e j le =
      prefix_distance-row c n (suc i) (next_row c n i h) k m (omega arith) j le

  pub prefix_distance-zero : (i : ℕ) → prefix_distance i 0 ≡ i
  unfolding prefix_distance
  prefix_distance-zero zero = refl
  prefix_distance-zero (suc i) = refl

  delete_step : (i j : ℕ) → prefix_distance (suc i) j ≤ suc (prefix_distance i j)
  unfolding prefix_distance
  delete_step zero zero = omega arith
  delete_step (suc i) zero = omega arith
  delete_step i (suc j) = omega arith

  insert_step : (i j : ℕ) → prefix_distance i (suc j) ≤ suc (prefix_distance i j)
  unfolding prefix_distance
  insert_step zero j = omega arith
  insert_step (suc i) j = omega arith

  -- A way to edit the first `i` characters of `a` into the first `j` of `b` in `n` edits.
  pub data Script : ℕ → ℕ → ℕ → Type 0 where
    empty : Script zero zero zero
    keep : {i j n : ℕ} → get_or a i 0 ≡ get_or b j 0 → Script i j n → Script (suc i) (suc j) n
    substitute : {i j n : ℕ} → Script i j n → Script (suc i) (suc j) (suc n)
    delete : {i j n : ℕ} → Script i j n → Script (suc i) j (suc n)
    insert : {i j n : ℕ} → Script i j n → Script i (suc j) (suc n)

  -- No script is shorter than the distance.
  pub prefix_distance-le-Script : {i j n : ℕ} → Script i j n → prefix_distance i j ≤ n
  unfolding prefix_distance
  prefix_distance-le-Script empty = omega arith
  prefix_distance-le-Script (keep e s) = ground (arith, prefix_distance-le-Script s)
  prefix_distance-le-Script (substitute s) = ground (arith, prefix_distance-le-Script s)
  prefix_distance-le-Script (delete {i = i} {j = j} s) =
      omega (arith, delete_step i j, prefix_distance-le-Script s)
  prefix_distance-le-Script (insert {i = i} {j = j} s) =
      omega (arith, insert_step i j, prefix_distance-le-Script s)

  Script-length : {i j n m : ℕ} → n ≡ m → Script i j n → Script i j m
  Script-length {i} {j} e s = subst (λ k. Script i j k) e s

  diagonal_step : (i j n : ℕ) → Script i j n → Script (suc i) (suc j) (n + cost i j)
  diagonal_step i j n s = elim (Bool-cases (get_or a i 0 == get_or b j 0)) [
    | inl same ↦ Script-length (ground arith) (keep ((==_iff _ _).0 same) s)
    | inr other ↦ Script-length (ground arith) (substitute s)
  ]

  min_cases : (x y z : ℕ) → (x ≡ min x (min y z)) ⊎ ((y ≡ min x (min y z)) ⊎ (z ≡ min x (min y z)))
  min_cases x y z = grind arith

  -- A script as short as the distance.
  pub shortest : (i j : ℕ) → Script i j (prefix_distance i j)
  unfolding prefix_distance
  shortest zero zero = empty
  shortest zero (suc j) = insert (shortest zero j)
  shortest (suc i) zero = delete (Script-length (prefix_distance-zero i) (shortest i zero))
  shortest (suc i) (suc j) =
      elim (min_cases (prefix_distance i j + cost i j) (prefix_distance i (suc j) + 1)
        (prefix_distance (suc i) j + 1)) [
          | inl e ↦ Script-length e (diagonal_step i j _ (shortest i j))
          | inr (inl e) ↦ Script-length (omega arith) (delete (shortest i (suc j)))
          | inr (inr e) ↦ Script-length (omega arith) (insert (shortest (suc i) j))
        ]

-- The least number of single-character edits that turn `a` into `b`.
unfoldable pub edit_distance : List ℕ → List ℕ → ℕ
edit_distance a b = prefix_distance a b (length a) (length b)
