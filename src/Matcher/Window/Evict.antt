-- ===== src/Matcher/Window/Evict.antt =====
-- `add` appends to the stream; what it evicts is out of the time window or over the token cap.
use mathlib.Core.List.{append-nil}
use voip.Prelude.{
  ℕ, ◌+◌, ◌-◌, ◌≤◌, ◌<◌, max, ◌≡◌, ap, ◌⊎◌, inl, inr, List, [], ◌∷◌, ◌++◌, sym, arith, ltb, ltb→lt,
  ltb-false, length, get_or, replicate, Text, Bool-cases, length-append, length-drop,
  length-replicate, drop-append,
}
use voip.Matcher.Normalize.{normalize}
use voip.Matcher.Window.{Window, bisect_left, keep_from, evict, push, add}
use voip.Matcher.Window.Bisect.{bisect_left-Cut}
use voip.Matcher.Window.Stream.{
  Tracks, Before, append-IsSorted, times-IsSorted, length-times, evict_tokens, evict_times,
  evict_dropped, evict-Tracks, get_or-drop,
}

module _ {ℓ} {Score : Type ℓ} where
  -- The window of `add` before it evicts.
  extended : Window Score → List Text → ℕ → Window Score
  extended w new now = record w {
    tokens = w.tokens ++ new;
    times = w.times ++ replicate (length new) now;
  }

  extended-Tracks :
      {w : Window Score} {stream : List Text} {clock : List ℕ} (new : List Text) (now : ℕ)
      → Tracks w stream clock
      → Before clock now
      → Tracks (extended w new now) (stream ++ new) (clock ++ replicate (length new) now)
  unfolding extended
  extended-Tracks {w} {stream} {clock} new now t before = record {
    tokens = rw t.tokens (sym (drop-append w.dropped stream new t.bound));
    times = rw t.times (sym (drop-append w.dropped clock _ (omega (arith, t.bound, t.paired))));
    bound = omega (arith, t.bound, length-append stream new);
    paired = omega (
      arith,
      t.paired,
      length-append stream new,
      length-append clock (replicate (length new) now),
      length-replicate (length new) now,
    );
    ordered = append-IsSorted clock (length new) now t.ordered before;
  }

  -- The state after `new` tokens are put in, whichever branch is taken.
  pub record Added (w : Window Score) (stream : List Text) (clock : List ℕ) (new : List Text)
      (now : ℕ) (result : Window Score × ℕ) : Type ℓ where
    pub tracks : Tracks result.0 (stream ++ new) (clock ++ replicate (length new) now)
    -- The returned index is the place of the first new token that is still in the window.
    pub fresh : result.1 + result.0.dropped ≡ max result.0.dropped (length stream)
    pub grows : w.dropped ≤ result.0.dropped

  push-Added :
      (w : Window Score) (stream : List Text) (clock : List ℕ) (new : List Text) (now : ℕ)
      → Tracks w stream clock
      → Before clock now
      → Added w stream clock new now (push w new now)
  unfolding push extended
  push-Added w stream clock [] now t before = record {
    tracks = rw (append-nil stream, append-nil clock) t;
    fresh = omega (arith, t.bound, ap length t.tokens, length-drop w.dropped stream);
    grows = omega arith;
  }
  push-Added w stream clock (x ∷ xs) now t before =
      let new = x ∷ xs in
      let w' = extended w new now in
      let t' = extended-Tracks new now t before in
      let grown : (evict w' now).dropped ≡ w.dropped + keep_from w' now = evict_dropped w' now in
      record {
        tracks = evict-Tracks now t';
        fresh = omega (arith, t.bound, ap length t.tokens, length-drop w.dropped stream, grown);
        grows = omega (arith, grown);
      }

  -- Where the window is a suffix of the stream and the clock does not run backwards, `add` puts
  -- its tokens at the end of the stream, keeps it a suffix, and returns the place of the first
  -- new token that is still in the window.
  pub add-Added :
      (w : Window Score) (stream : List Text) (clock : List ℕ) (text : Text) (now : ℕ)
      → Tracks w stream clock
      → Before clock now
      → Added w stream clock (normalize text) now (add w text now)
  unfolding add
  add-Added w stream clock text now = push-Added w stream clock (normalize text) now

  -- What the window holds after it has rolled, and what it has dropped.
  pub record Rolled (w : Window Score) (now : ℕ) (w' : Window Score) : Type ℓ where
    pub capped : length w'.tokens ≤ w.max_tokens
    pub recent : (i : ℕ) → i < length w'.times → now - w.window_s ≤ get_or w'.times i 0
    pub dropped_old :
        (i : ℕ)
        → i + w.dropped < w'.dropped
        → (get_or w.times i 0 < now - w.window_s) ⊎ (length w'.tokens ≡ w.max_tokens)

  -- Where the kept part begins: at the first recent token, or later if that is too many.
  record KeepFrom (w : Window Score) (now keep : ℕ) : Type 0 where
    within : keep ≤ length w.tokens
    capped : length w.tokens - keep ≤ w.max_tokens
    recent : (i : ℕ) → keep ≤ i → i < length w.times → now - w.window_s ≤ get_or w.times i 0
    old :
        (i : ℕ)
        → i < keep
        → (get_or w.times i 0 < now - w.window_s) ⊎ (length w.tokens - keep ≡ w.max_tokens)

  keep_from-KeepFrom :
      (w : Window Score) (stream : List Text) (clock : List ℕ) (now : ℕ)
      → Tracks w stream clock
      → KeepFrom w now (keep_from w now)
  unfolding keep_from
  keep_from-KeepFrom w stream clock now t =
      let k = bisect_left (length w.times) w.times (now - w.window_s) 0 (length w.times) in
      let cut = bisect_left-Cut w.times (now - w.window_s) (times-IsSorted t) in
      let n = length-times t in
      elim (Bool-cases (ltb w.max_tokens (length w.tokens - k))) [
        | inl full ↦
            let lt = ltb→lt _ _ full in
            rw full (record {
              within = omega arith;
              capped = omega arith;
              recent = λ i le l. cut.above i (omega arith) l;
              old = λ i l. inr (omega arith);
            })
        | inr roomy ↦ rw roomy (record {
          within = omega (arith, cut.within);
          capped = ltb-false _ _ roomy;
          recent = λ i le l. cut.above i le l;
          old = λ i l. inl (cut.below i l);
        })
      ]

  -- Where the window is a suffix of the stream, after `evict` it holds at most `max_tokens`
  -- tokens, none older than the time window; a token is dropped only for its age or because the
  -- window is full.
  pub evict-Rolled :
      (w : Window Score) (stream : List Text) (clock : List ℕ) (now : ℕ)
      → Tracks w stream clock
      → Rolled w now (evict w now)
  evict-Rolled w stream clock now t =
      let keep = keep_from w now in
      let k = keep_from-KeepFrom w stream clock now t in
      let size : length (evict w now).tokens ≡ length w.tokens - keep =
        rw (evict_tokens w now) (length-drop keep w.tokens) in
      record {
        capped = omega (arith, k.capped, size);
        recent = rw (evict_times w now) (λ i l.
            rw (get_or-drop keep i w.times)
              (k.recent (keep + i) (omega arith) (omega (arith, length-drop keep w.times))));
        dropped_old = λ i l. rw size (k.old i (omega (arith, evict_dropped w now)));
      }
