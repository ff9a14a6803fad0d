-- ===== src/Matcher/Window/Accept.antt =====
-- One utterance is reported once, also after the window has rolled.
use voip.Prelude.{
  ℕ, ◌+◌, ◌≤◌, ◌<◌, ◌≡◌, refl, ap, List, [], ◌∷◌, ◌++◌, Bool, true, false, ◌&&◌, arith, ltb, Text,
  Bool-cases, inl, inr, eqb, ℕ-eq,
}
use voip.Prelude.Dict
use voip.Matcher.Normalize.{normalize}
use voip.Matcher.Phrases.{Match}
use voip.Matcher.Window.{
  Window, Span, overlaps, live_spans, keep_row, forget, spans_of, evict, push, add, accept,
  keep_from,
}

-- No two of the spans overlap.
abbrev pub Disjoint : List Span → Type 0
Disjoint [] = Unit
Disjoint (s ∷ spans) = (overlaps s.start s.stop spans ≡ false) × Disjoint spans

abbrev pub AllDisjoint : List (ℕ × List Span) → Type 0
AllDisjoint [] = Unit
AllDisjoint ((row, spans) ∷ rest) = Disjoint spans × AllDisjoint rest

overlaps-append :
    (a0 a1 : ℕ) (spans : List Span) (s : Span)
    → overlaps a0 a1 spans ≡ false
    → (ltb s.start a1 && ltb a0 s.stop) ≡ false
    → overlaps a0 a1 (spans ++ (s ∷ [])) ≡ false
unfolding overlaps
overlaps-append a0 a1 [] s h e = ground arith
overlaps-append a0 a1 (t ∷ spans) s h e =
    ground (arith, overlaps-append a0 a1 spans s (ground arith) e)

Disjoint-append :
    (spans : List Span) (s : Span)
    → Disjoint spans
    → overlaps s.start s.stop spans ≡ false
    → Disjoint (spans ++ (s ∷ []))
unfolding overlaps
Disjoint-append [] s d h = (refl, tt)
Disjoint-append (t ∷ spans) s d h = (
  overlaps-append t.start t.stop spans s d.0 (ground arith),
  Disjoint-append spans s d.1 (ground arith),
)

spans_of-Disjoint :
    (row : ℕ) (reported : List (ℕ × List Span))
    → AllDisjoint reported
    → Disjoint (spans_of row reported)
unfolding spans_of
spans_of-Disjoint row [] d = tt
spans_of-Disjoint row ((r, spans) ∷ rest) d = ground (arith, spans_of-Disjoint row rest d.1)

put-AllDisjoint :
    (row : ℕ) (spans : List Span) (reported : List (ℕ × List Span))
    → Disjoint spans
    → AllDisjoint reported
    → AllDisjoint (Dict.put row spans reported)
unfolding Dict.put
put-AllDisjoint row spans [] s d = (s, tt)
put-AllDisjoint row spans ((r, old) ∷ rest) s d = elim (Bool-cases (eqb r row)) [
  | inl same ↦ rw same (s, d.1)
  | inr other ↦ rw other (d.0, put-AllDisjoint row spans rest s d.1)
]

module _ {ℓ} {Score : Type ℓ} where
  -- Where the reported spans of every phrase are disjoint, `accept` keeps them so.
  pub accept-AllDisjoint :
      (w : Window Score) (m : Match Score)
      → AllDisjoint w.reported
      → AllDisjoint (accept w m).0.reported
  unfolding accept
  accept-AllDisjoint w m d =
      let row = m.phrase.row in
      let spans = spans_of row w.reported in
      elim (Bool-cases (overlaps (w.dropped + m.start) (w.dropped + m.stop) spans)) [
        | inl old ↦ rw old d
        | inr new ↦ rw new (
            put-AllDisjoint row _ w.reported
              (Disjoint-append spans _ (spans_of-Disjoint row w.reported d) new) d)
      ]

-- A dead span lies before the window, so it overlaps nothing in it.
overlaps-live_spans :
    (x y dropped : ℕ) (spans : List Span)
    → dropped ≤ x
    → overlaps x y (live_spans dropped spans) ≡ overlaps x y spans
unfolding overlaps live_spans
overlaps-live_spans x y dropped [] h = refl
overlaps-live_spans x y dropped (s ∷ spans) h =
    ground (arith, overlaps-live_spans x y dropped spans h)

spans_of-keep_row_same :
    (x y row r : ℕ) (kept : List Span) (others : List (ℕ × List Span))
    → eqb r row ≡ true
    → overlaps x y kept ≡ true
    → overlaps x y (spans_of row (keep_row r kept others)) ≡ true
unfolding spans_of keep_row overlaps
spans_of-keep_row_same x y row r [] others same o = cc
spans_of-keep_row_same x y row r (s ∷ spans) others same o = ground arith

spans_of-keep_row_other :
    (row r : ℕ) (kept : List Span) (others : List (ℕ × List Span))
    → eqb r row ≡ false
    → spans_of row (keep_row r kept others) ≡ spans_of row others
unfolding spans_of keep_row
spans_of-keep_row_other row r [] others other = refl
spans_of-keep_row_other row r (s ∷ spans) others other = ground arith

overlaps-forget :
    (x y dropped row : ℕ) (reported : List (ℕ × List Span))
    → dropped ≤ x
    → overlaps x y (spans_of row reported) ≡ true
    → overlaps x y (spans_of row (forget dropped reported)) ≡ true
unfolding forget
overlaps-forget x y dropped row [] h o = o
overlaps-forget x y dropped row ((r, spans) ∷ rest) h o = elim (Bool-cases (eqb r row)) [
  | inl same ↦
      spans_of-keep_row_same x y row r (live_spans dropped spans) _ same
        (rw (overlaps-live_spans x y dropped spans h) (unfold spans_of in rw (same, spans_of) at o))
  | inr other ↦
      rw (spans_of-keep_row_other row r (live_spans dropped spans) (forget dropped rest) other)
        (overlaps-forget x y dropped row rest h (unfold spans_of in rw (other, spans_of) at o))
]

overlaps-append_last :
    (x y : ℕ) (spans : List Span) (s : Span)
    → s.start < y
    → x < s.stop
    → overlaps x y (spans ++ (s ∷ [])) ≡ true
unfolding overlaps
overlaps-append_last x y [] s h1 h2 = ground arith
overlaps-append_last x y (t ∷ spans) s h1 h2 =
    ground (arith, overlaps-append_last x y spans s h1 h2)

spans_of-put :
    (row : ℕ) (spans : List Span) (reported : List (ℕ × List Span))
    → spans_of row (Dict.put row spans reported) ≡ spans
unfolding spans_of Dict.put
spans_of-put row spans [] = ground arith
spans_of-put row spans ((r, old) ∷ rest) = ground (arith, spans_of-put row spans rest)

module _ {ℓ} {Score : Type ℓ} where
  -- The row's spans cover the absolute range `lo` to `hi`: whatever meets it is refused.
  abbrev Covers : Window Score → ℕ → ℕ → ℕ → Type 0
  Covers w row lo hi =
      (x y : ℕ) → w.dropped ≤ x → lo < y → x < hi → overlaps x y (spans_of row w.reported) ≡ true

  accept-Covers :
      (w w' : Window Score) (m : Match Score)
      → accept w m ≡ (w', true)
      → Covers w' m.phrase.row (w.dropped + m.start) (w.dropped + m.stop)
  unfolding accept
  accept-Covers w w' m e x y h lo hi =
      elim (Bool-cases
        (overlaps (w.dropped + m.start) (w.dropped + m.stop) (spans_of m.phrase.row w.reported))) [
          | inl old ↦ cc (rw old at e)
          | inr new ↦
              let r = ap (λ (p : Window Score × Bool). p.0.reported) (rw new at e) in
              rw (← r) (
                rw (spans_of-put m.phrase.row _ w.reported)
                  (overlaps-append_last x y (spans_of m.phrase.row w.reported) _ lo hi))
        ]

  evict-Covers :
      (w : Window Score) (now row lo hi : ℕ) → Covers w row lo hi → Covers (evict w now) row lo hi
  unfolding evict
  evict-Covers w now row lo hi c x y h l u = elim (Bool-cases (ltb 0 (keep_from w now))) [
    | inl some_old ↦ rw some_old (
        overlaps-forget x y (w.dropped + keep_from w now) row w.reported (rw some_old at h)
          (c x y (omega (arith, rw some_old at h)) l u))
    | inr none_old ↦ rw none_old (c x y (rw none_old at h) l u)
  ]

  push-Covers :
      (w : Window Score) (new : List Text) (now row lo hi : ℕ)
      → Covers w row lo hi
      → Covers (push w new now).0 row lo hi
  unfolding push
  push-Covers w [] now row lo hi c = c
  push-Covers w (t ∷ ts) now row lo hi c = evict-Covers _ now row lo hi c

  -- A match that was accepted is not accepted again after more text came in and the window
  -- rolled: any match of the same phrase whose words overlap it, in absolute positions, is refused.
  pub accept-add_again :
      (w w' : Window Score) (m again : Match Score) (text : Text) (now : ℕ)
      → accept w m ≡ (w', true)
      → again.phrase.row ≡ m.phrase.row
      → w.dropped + m.start < (add w' text now).0.dropped + again.stop
      → (add w' text now).0.dropped + again.start < w.dropped + m.stop
      → (accept (add w' text now).0 again).1 ≡ false
  unfolding add
  accept-add_again w w' m again text now e row lo hi =
      let w'' = (push w' (normalize text) now).0 in
      let c = push-Covers w' (normalize text) now m.phrase.row _ _ (accept-Covers w w' m e) in
      let o = c (w''.dropped + again.start) (w''.dropped + again.stop) (omega arith) lo hi in
      unfold accept in rw row (rw o)
