-- ===== src/Matcher/Select/Veto.antt =====
-- The Tier X veto: what it keeps and what it drops.
use voip.Prelude.{
  ◌≡◌, refl, inl, inr, Bool, true, false, List, [], ◌∷◌, Bool-cases, All, Any, if◌then◌else◌,
}
use voip.Matcher.Phrases.{Match}
use voip.Matcher.Select.{is_veto, vetoes_of, meets_any, keep_unvetoed, apply_veto}

module _ {Score : Type 0} where
  All-if :
      (P : Match Score → Type 0) (b : Bool) (m : Match Score) (ms : List (Match Score))
      → P m
      → All P ms
      → All P (if b then m ∷ ms else ms)
  All-if P true m ms h hs = (h, hs)
  All-if P false m ms h hs = hs

  keep_unvetoed-All :
      (P : Match Score → Type 0) (include : Bool) (vetoes raw : List (Match Score))
      → All P raw
      → All P (keep_unvetoed include vetoes raw)
  unfolding keep_unvetoed
  keep_unvetoed-All P include vetoes [] h = tt
  keep_unvetoed-All P include vetoes (m ∷ ms) h =
      let rest = keep_unvetoed-All P include vetoes ms h.1 in
      elim (Bool-cases (is_veto m)) [
        | inl veto ↦ rw veto (All-if P include m _ h.0 rest)
        | inr other ↦ rw other (elim (Bool-cases (meets_any vetoes m)) [
          | inl hit ↦ rw hit rest
          | inr free ↦ rw free (h.0, rest)
        ])
      ]

  -- What the veto lets through is part of what it was given.
  pub apply_veto-All :
      (P : Match Score → Type 0) (include : Bool) (raw : List (Match Score))
      → All P raw
      → All P (apply_veto include raw)
  unfolding apply_veto
  apply_veto-All P include raw h = split (vetoes_of raw)
    where
      split :
          (vs : List (Match Score))
          → All P (elim vs [ [] ↦ raw | v ∷ r ↦ keep_unvetoed include (v ∷ r) raw ])
      split [] = h
      split (v ∷ vs) = keep_unvetoed-All P include (v ∷ vs) raw h

  -- A match that is no exclusion and overlaps none.
  abbrev pub IsFree : List (Match Score) → Match Score → Type 0
  IsFree vetoes m = (is_veto m ≡ false) × (meets_any vetoes m ≡ false)

  keep_unvetoed-IsFree :
      (vetoes raw : List (Match Score)) → All (IsFree vetoes) (keep_unvetoed false vetoes raw)
  unfolding keep_unvetoed
  keep_unvetoed-IsFree vetoes [] = tt
  keep_unvetoed-IsFree vetoes (m ∷ ms) =
      let rest = keep_unvetoed-IsFree vetoes ms in
      elim (Bool-cases (is_veto m)) [
        | inl veto ↦ rw veto rest
        | inr other ↦ rw other (elim (Bool-cases (meets_any vetoes m)) [
          | inl hit ↦ rw hit rest
          | inr free ↦ rw free ((other, free), rest)
        ])
      ]

  vetoes_of-nil : (raw : List (Match Score)) → vetoes_of raw ≡ [] → All (IsFree []) raw
  unfolding vetoes_of meets_any
  vetoes_of-nil [] h = tt
  vetoes_of-nil (m ∷ ms) h = elim (Bool-cases (is_veto m)) [
    | inl veto ↦ cc (rw (veto, vetoes_of) at h)
    | inr other ↦ ((other, refl), vetoes_of-nil ms (rw (other, vetoes_of) at h))
  ]

  -- With exclusions left out, all that is let through is free.
  pub apply_veto-IsFree :
      (raw : List (Match Score)) → All (IsFree (vetoes_of raw)) (apply_veto false raw)
  unfolding apply_veto
  apply_veto-IsFree raw = split (vetoes_of raw) refl
    where
      split :
          (vs : List (Match Score))
          → vetoes_of raw ≡ vs
          → All (IsFree vs) (elim vs [ [] ↦ raw | v ∷ r ↦ keep_unvetoed false (v ∷ r) raw ])
      split [] e = vetoes_of-nil raw e
      split (v ∷ vs) e = keep_unvetoed-IsFree (v ∷ vs) raw

  keep_unvetoed-Any :
      (vetoes raw : List (Match Score)) (m : Match Score)
      → IsFree vetoes m
      → Any (λ k. k ≡ m) raw
      → Any (λ k. k ≡ m) (keep_unvetoed false vetoes raw)
  unfolding keep_unvetoed
  keep_unvetoed-Any vetoes [] m f h = h
  keep_unvetoed-Any vetoes (k ∷ ks) m f (inl e) = rw (e, f.0, f.1) (inl refl)
  keep_unvetoed-Any vetoes (k ∷ ks) m f (inr h) =
      let rest = keep_unvetoed-Any vetoes ks m f h in
      elim (Bool-cases (is_veto k)) [
        | inl veto ↦ rw veto rest
        | inr other ↦ rw other (elim (Bool-cases (meets_any vetoes k)) [
          | inl hit ↦ rw hit rest
          | inr free ↦ rw free (inr rest)
        ])
      ]

  -- Every free match is let through.
  pub apply_veto-Any :
      (raw : List (Match Score)) (m : Match Score)
      → IsFree (vetoes_of raw) m
      → Any (λ k. k ≡ m) raw
      → Any (λ k. k ≡ m) (apply_veto false raw)
  unfolding apply_veto
  apply_veto-Any raw m f h = split (vetoes_of raw) f
    where
      split :
          (vs : List (Match Score))
          → IsFree vs m
          → Any (λ k. k ≡ m) (elim vs [ [] ↦ raw | v ∷ r ↦ keep_unvetoed false (v ∷ r) raw ])
      split [] g = h
      split (v ∷ vs) g = keep_unvetoed-Any (v ∷ vs) raw m g h
