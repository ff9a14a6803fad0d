-- ===== src/Matcher/Window/Stream.antt =====
-- The window is a suffix of everything said on the call, and the absolute coordinates
-- (`dropped` + index) are positions in that stream.
use native.Mathlib.Decide.{dec_lt}
use voip.Prelude.{
  ℕ, zero, suc, ◌+◌, ◌-◌, ◌≤◌, ◌<◌, ◌≡◌, refl, ap, ◌∙◌, inl, inr, List, [], ◌∷◌, ◌++◌, arith, ltb,
  ltb-false, length, get_or, drop, replicate, Text, Bool-cases, length-append, length-drop,
  length-replicate, drop-drop,
}
use voip.Matcher.Window.{Window, keep_from, evict}
use voip.Matcher.Window.Bisect.{IsSorted, bisect_left-Cut}

pub get_or-drop : (n i : ℕ) (xs : List ℕ) → get_or (drop n xs) i 0 ≡ get_or xs (n + i) 0
get_or-drop zero i xs = ap (λ k. get_or xs k 0) (let e : i ≡ 0 + i = omega arith in e)
get_or-drop (suc n) i [] = refl
get_or-drop (suc n) i (x ∷ xs) =
    get_or-drop n i xs
    ∙ ap (λ k. get_or (x ∷ xs) k 0) (let e : suc (n + i) ≡ suc n + i = omega arith in e)

drop-IsSorted : (n : ℕ) (xs : List ℕ) → IsSorted xs → IsSorted (drop n xs)
drop-IsSorted n xs s i j le lt =
    rw (get_or-drop n i xs)
      (rw (get_or-drop n j xs) (s (n + i) (n + j) (omega arith) (omega (arith, length-drop n xs))))

append_left : (xs ys : List ℕ) (i : ℕ) → i < length xs → get_or (xs ++ ys) i 0 ≡ get_or xs i 0
append_left [] ys i h = elim h [ ]
append_left (x ∷ xs) ys zero h = refl
append_left (x ∷ xs) ys (suc i) h = append_left xs ys i (omega arith)

append_replicate :
    (xs : List ℕ) (n v i : ℕ)
    → length xs ≤ i
    → i < length xs + n
    → get_or (xs ++ replicate n v) i 0 ≡ v
append_replicate [] zero v i h1 h2 = absurd (omega arith)
append_replicate [] (suc n) v zero h1 h2 = refl
append_replicate [] (suc n) v (suc i) h1 h2 = append_replicate [] n v i (omega arith) (omega arith)
append_replicate (x ∷ xs) n v zero h1 h2 = absurd (omega arith)
append_replicate (x ∷ xs) n v (suc i) h1 h2 = append_replicate xs n v i (omega arith) (omega arith)

-- No time lies after `now`.
abbrev pub Before : List ℕ → ℕ → Type 0
Before clock now = (i : ℕ) → i < length clock → get_or clock i 0 ≤ now

pub append-IsSorted :
    (clock : List ℕ) (n now : ℕ)
    → IsSorted clock
    → Before clock now
    → IsSorted (clock ++ replicate n now)
append-IsSorted clock n now s before i j le lt =
    let bound : j < length clock + n =
      omega (arith, length-append clock (replicate n now), length-replicate n now) in
    elim (dec_lt j (length clock)) [
      | yes old ↦
          rw (append_left clock (replicate n now) i (omega arith))
            (rw (append_left clock (replicate n now) j old) (s i j le old))
      | no new ↦
          rw (append_replicate clock n now j (omega arith) bound) (elim (dec_lt i (length clock)) [
            | yes old ↦ rw (append_left clock (replicate n now) i old) (before i old)
            | no new' ↦
                rw (append_replicate clock n now i (omega arith) (omega arith)) (omega arith)
          ])
    ]

-- `stream` is all that was ever added, and `clock` the times of its tokens.
pub record Tracks {ℓ} {Score : Type ℓ} (w : Window Score) (stream : List Text) (clock : List ℕ)
    : Type ℓ where
  pub tokens : w.tokens ≡ drop w.dropped stream
  pub times : w.times ≡ drop w.dropped clock
  pub bound : w.dropped ≤ length stream
  pub paired : length clock ≡ length stream
  pub ordered : IsSorted clock

module _ {ℓ} {Score : Type ℓ} where
  pub times-IsSorted :
      {w : Window Score} {stream : List Text} {clock : List ℕ}
      → Tracks w stream clock
      → IsSorted w.times
  times-IsSorted {w} {stream} {clock} t = rw t.times (drop-IsSorted w.dropped clock t.ordered)

  pub length-times :
      {w : Window Score} {stream : List Text} {clock : List ℕ}
      → Tracks w stream clock
      → length w.times ≡ length w.tokens
  length-times {w} {stream} {clock} t =
      rw (t.tokens, t.times)
        (omega (arith, length-drop w.dropped stream, length-drop w.dropped clock, t.paired))

  pub keep_from-le :
      {w : Window Score} {stream : List Text} {clock : List ℕ} (now : ℕ)
      → Tracks w stream clock
      → keep_from w now ≤ length w.tokens
  unfolding keep_from
  keep_from-le {w} now t =
      let cut = bisect_left-Cut w.times (now - w.window_s) (times-IsSorted t) in
      ground (arith, cut.within, length-times t)

  -- What `evict` does to the tokens, their times and the offset, in both of its branches.
  pub evict_tokens :
      (w : Window Score) (now : ℕ) → (evict w now).tokens ≡ drop (keep_from w now) w.tokens
  unfolding evict
  evict_tokens w now = elim (Bool-cases (ltb 0 (keep_from w now))) [
    | inl some_old ↦ rw some_old
    | inr none_old ↦
        let e : keep_from w now ≡ 0 = omega (arith, ltb-false _ _ none_old) in rw none_old (rw e)
  ]

  pub evict_times :
      (w : Window Score) (now : ℕ) → (evict w now).times ≡ drop (keep_from w now) w.times
  unfolding evict
  evict_times w now = elim (Bool-cases (ltb 0 (keep_from w now))) [
    | inl some_old ↦ rw some_old
    | inr none_old ↦
        let e : keep_from w now ≡ 0 = omega (arith, ltb-false _ _ none_old) in rw none_old (rw e)
  ]

  pub evict_dropped :
      (w : Window Score) (now : ℕ) → (evict w now).dropped ≡ w.dropped + keep_from w now
  unfolding evict
  evict_dropped w now = elim (Bool-cases (ltb 0 (keep_from w now))) [
    | inl some_old ↦ rw some_old
    | inr none_old ↦ rw none_old (omega (arith, ltb-false _ _ none_old))
  ]

  pub evict-Tracks :
      {w : Window Score} {stream : List Text} {clock : List ℕ} (now : ℕ)
      → Tracks w stream clock
      → Tracks (evict w now) stream clock
  evict-Tracks {w} {stream} {clock} now t = record {
    tokens =
        rw (evict_tokens w now)
          (rw (evict_dropped w now) (rw t.tokens (drop-drop _ w.dropped stream)));
    times =
        rw (evict_times w now)
          (rw (evict_dropped w now) (rw t.times (drop-drop _ w.dropped clock)));
    bound =
        let k = keep_from-le now t in
        rw (evict_dropped w now)
          (omega (arith, t.bound, ap length t.tokens, length-drop w.dropped stream, k));
    paired = t.paired;
    ordered = t.ordered;
  }
