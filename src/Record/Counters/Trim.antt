-- ===== src/Record/Counters/Trim.antt =====
-- The rolling record: the shortcut of _trim loses nothing and keeps nothing stale.
use voip.Prelude.{
  ℕ, ◌-◌, ◌≤◌, ◌≡◌, ◌⊎◌, refl, sym, ap, true, false, List, [], ◌∷◌, ◌++◌, some, arith, leb, leb→le,
  if◌then◌else◌, Text, same_text, same_text-eq, same_text_iff, Text-eq, Bool-cases, inl, inr, All,
  All-map, All-append, Pairwise,
}
use voip.Prelude.Dict
use voip.Metaphone.Loop.{is_empty}
use voip.Record.Counters.{
  Kind, Row, CustomerCounters, since_cutoff, trim_rows, rows_of, trim, with_events, add,
}

-- Rows stand in the order of their times.
abbrev pub InOrder : List Row → Type 0
InOrder rows = Pairwise (λ r s. r.0 ≤ s.0) rows

since_cutoff_whole :
    (cutoff : ℕ) (rows : List Row) → All (λ r. cutoff ≤ r.0) rows → since_cutoff cutoff rows ≡ rows
unfolding since_cutoff
since_cutoff_whole cutoff [] h = refl
since_cutoff_whole cutoff (r ∷ rs) h = ground (arith, since_cutoff_whole cutoff rs h.1, h.0)

-- On rows in the order of time, _trim keeps exactly the recent ones.
pub trim_rows-since_cutoff :
    (cutoff : ℕ) (rows : List Row) → InOrder rows → trim_rows cutoff rows ≡ since_cutoff cutoff rows
unfolding trim_rows since_cutoff
trim_rows-since_cutoff cutoff [] h = refl
trim_rows-since_cutoff cutoff (r ∷ rs) h = elim (Bool-cases (leb cutoff r.0)) [
  | inl recent ↦
      rw (trim_rows, recent)
        (ap (λ x. r ∷ x)
          (sym (
            since_cutoff_whole cutoff rs (
              All-map (λ s. r.0 ≤ s.0) (λ s. cutoff ≤ s.0) rs
                (λ s le. omega (arith, le, leb→le cutoff r.0 recent)) h.0))))
  | inr old ↦ rw (trim_rows, old) refl
]

since_cutoff-All :
    (P : Row → Type 0) (cutoff : ℕ) (rows : List Row)
    → All P rows
    → All P (since_cutoff cutoff rows)
unfolding since_cutoff
since_cutoff-All P cutoff [] h = tt
since_cutoff-All P cutoff (r ∷ rs) h = elim (Bool-cases (leb cutoff r.0)) [
  | inl recent ↦ rw (since_cutoff, recent) (h.0, since_cutoff-All P cutoff rs h.1)
  | inr old ↦ rw (since_cutoff, old) (since_cutoff-All P cutoff rs h.1)
]

since_cutoff-InOrder :
    (cutoff : ℕ) (rows : List Row) → InOrder rows → InOrder (since_cutoff cutoff rows)
unfolding since_cutoff
since_cutoff-InOrder cutoff [] h = tt
since_cutoff-InOrder cutoff (r ∷ rs) h = elim (Bool-cases (leb cutoff r.0)) [
  | inl recent ↦
      rw (since_cutoff, recent)
        (since_cutoff-All (λ s. r.0 ≤ s.0) cutoff rs h.0, since_cutoff-InOrder cutoff rs h.1)
  | inr old ↦ rw (since_cutoff, old) (since_cutoff-InOrder cutoff rs h.1)
]

append-InOrder :
    (rows : List Row) (new : Row)
    → InOrder rows
    → All (λ r. r.0 ≤ new.0) rows
    → InOrder (rows ++ (new ∷ []))
append-InOrder [] new h b = (tt, tt)
append-InOrder (r ∷ rs) new h b =
    (All-append (λ s. r.0 ≤ s.0) rs (new ∷ []) h.0 (b.0, tt), append-InOrder rs new h.1 b.1)

pub rows_of-put :
    (ip jp : Text) (rows : List Row) (events : List (Text × List Row))
    → rows_of jp (Dict.put ip rows events) ≡ (if same_text ip jp then rows else rows_of jp events)
unfolding rows_of
rows_of-put ip jp rows events = elim (Bool-cases (same_text ip jp)) [
  | inl e ↦ ground (arith, Dict.get-put ip jp rows events, e)
  | inr e ↦ ground (arith, Dict.get-put ip jp rows events, e)
]

same_text_self : (a : Text) → same_text a a ≡ true
same_text_self a = (same_text_iff a a).1 refl

rows_of-trim :
    (window_s now : ℕ) (ip jp : Text) (rows : List Row) (events : List (Text × List Row))
    → rows_of jp (trim window_s ip now (Dict.put ip rows events))
      ≡ (if same_text ip jp then trim_rows (now - window_s) rows else rows_of jp events)
unfolding trim
rows_of-trim window_s now ip jp rows events =
    let there : Dict.get ip (Dict.put ip rows events) ≡ some rows =
      ground (arith, Dict.get-put ip ip rows events, same_text_self ip) in
    rw (trim, there)
      (ground (
        arith,
        rows_of-put ip jp (trim_rows (now - window_s) rows) (Dict.put ip rows events),
        rows_of-put ip jp rows events,
      ))

module _ {Float : Type 0} where
  -- The rows of the customer after `add`, and those of the others.
  pub record Recorded (c : CustomerCounters Float) (ip : Text) (kind : Kind) (now : ℕ)
      (c' : CustomerCounters Float) : Type 0 where
    pub kept :
        rows_of ip c'.events
        ≡ since_cutoff (now - c.window_s) (rows_of ip c.events ++ ((now, kind) ∷ []))
    pub ordered : InOrder (rows_of ip c'.events)
    pub others : (jp : Text) → (jp ≡ ip) ⊎ (rows_of jp c'.events ≡ rows_of jp c.events)

  -- Where the clock never runs backwards, `add` of an event of a named customer keeps that
  -- customer's rows in order, exactly those of the rolling window with the new one last, and
  -- leaves the rows of every other customer as they were.
  pub add-Recorded :
      (c : CustomerCounters Float) (ip : Text) (kind : Kind) (now : ℕ)
      → is_empty ip ≡ false
      → InOrder (rows_of ip c.events)
      → All (λ r. r.0 ≤ now) (rows_of ip c.events)
      → Recorded c ip kind now (add ip (some kind) now c)
  unfolding add with_events
  add-Recorded c ip kind now named ordered before =
      let rows = rows_of ip c.events ++ ((now, kind) ∷ []) in
      let sorted = append-InOrder (rows_of ip c.events) (now, kind) ordered before in
      let same = rows_of-trim c.window_s now ip ip rows c.events in
      let trimmed = trim_rows-since_cutoff (now - c.window_s) rows sorted in
      let kept' : rows_of ip (trim c.window_s ip now (Dict.put ip rows c.events))
          ≡ since_cutoff (now - c.window_s) rows =
        ground (arith, same, same_text_self ip, trimmed) in
      rw (add, named)
        (record {
          kept = kept';
          ordered = rw kept' (since_cutoff-InOrder (now - c.window_s) rows sorted);
          others = λ jp. other jp;
        })
    where
      other :
          (jp : Text)
          → (jp ≡ ip)
            ⊎ (rows_of jp (
                  trim c.window_s ip now
                    (Dict.put ip (rows_of ip c.events ++ ((now, kind) ∷ [])) c.events))
                ≡ rows_of jp c.events)
      other jp = elim (Bool-cases (same_text ip jp)) [
        | inl e ↦ inl (sym (same_text-eq ip jp e))
        | inr e ↦ inr (
            ground (
              arith,
              rows_of-trim c.window_s now ip jp (rows_of ip c.events ++ ((now, kind) ∷ []))
                  c.events,
              e,
            ))
      ]
