-- ===== src/Prelude/Dict.antt =====
-- Python's `dict`, as an association list in the order of insertion.
use mathlib.Core.Path.{◌≡◌, refl, sym, ap, subst}
use mathlib.Core.Logic.{inl, inr}
use mathlib.Core.Bool.{false}
use mathlib.Core.Option.{Option, none, some}
use mathlib.Core.List.{List, [], ◌∷◌}
use native.Mathlib.Omega.{arith}
use voip.Prelude.Tests.{if◌then◌else◌, Bool-cases}
use voip.Prelude.Predicates.{All}
use voip.Prelude.Keys.{Eq, eqb}

module _ {ℓ κ} {K : Type ℓ} {V : Type κ} ⦃e : Eq K⦄ where
  -- d.get(k)
  unfoldable pub get : K → List (K × V) → Option V
  get k [] = none
  get k ((j, v) ∷ d) = if eqb j k then some v else get k d

  -- d[k] = v keeps the place of a key that is there, and puts a new one last.
  unfoldable pub put : K → V → List (K × V) → List (K × V)
  put k v [] = (k, v) ∷ []
  put k v ((j, w) ∷ d) = if eqb j k then (j, v) ∷ d else (j, w) ∷ put k v d

  -- d.pop(k, None)
  unfoldable pub erase : K → List (K × V) → List (K × V)
  erase k [] = []
  erase k ((j, w) ∷ d) = let rest = erase k d in if eqb j k then rest else (j, w) ∷ rest

  pub get-put :
      (k j : K) (v : V) (d : List (K × V))
      → get j (put k v d) ≡ (if eqb k j then some v else get j d)
  unfolding get put
  get-put k j v [] = refl
  get-put k j v ((i, w) ∷ d) =
      ground (arith, e.beq_iff k j, e.beq_iff i k, e.beq_iff i j, get-put k j v d)

  pub get-erase :
      (k j : K) (d : List (K × V)) → get j (erase k d) ≡ (if eqb k j then none else get j d)
  unfolding get erase
  get-erase k j [] = ground arith
  get-erase k j ((i, w) ∷ d) =
      ground (arith, e.beq_iff k j, e.beq_iff i k, e.beq_iff i j, get-erase k j d)

  -- A predicate on the entries.
  module _ {μ} (P : K × V → Type μ) where
    pub put-All : (k : K) (v : V) (d : List (K × V)) → P (k, v) → All P d → All P (put k v d)
    unfolding put
    put-All k v [] h hs = (h, tt)
    put-All k v ((j, w) ∷ d) h hs = elim (Bool-cases (eqb j k)) [
      | inl same ↦ rw (put, same) (subst (λ i. P (i, v)) (sym ((e.beq_iff j k).0 same)) h, hs.1)
      | inr other ↦ rw (put, other) (hs.0, put-All k v d h hs.1)
    ]

    pub erase-All : (k : K) (d : List (K × V)) → All P d → All P (erase k d)
    unfolding erase
    erase-All k [] hs = tt
    erase-All k ((j, w) ∷ d) hs = elim (Bool-cases (eqb j k)) [
      | inl same ↦ rw (erase, same) (erase-All k d hs.1)
      | inr other ↦ rw (erase, other) (hs.0, erase-All k d hs.1)
    ]

    pub get-All : (k : K) (v : V) (d : List (K × V)) → get k d ≡ some v → All P d → P (k, v)
    unfolding get
    get-All k v [] e' hs = absurd (cc e')
    get-All k v ((j, w) ∷ d) e' hs = elim (Bool-cases (eqb j k)) [
      | inl same ↦
          let found : w ≡ v = cc (rw (get, same) at e') in
          subst P (λ i. ((e.beq_iff j k).0 same i, found i)) hs.0
      | inr other ↦ get-All k v d (rw (get, other) at e') hs.1
    ]

  -- No entry has the key that was erased.
  pub erase-Lacks : (k : K) (d : List (K × V)) → All (λ p. eqb p.0 k ≡ false) (erase k d)
  unfolding erase
  erase-Lacks k [] = tt
  erase-Lacks k ((j, w) ∷ d) = elim (Bool-cases (eqb j k)) [
    | inl same ↦ rw (erase, same) (erase-Lacks k d)
    | inr other ↦ rw (erase, other) (other, erase-Lacks k d)
  ]

  pub erase_missing : (k : K) (d : List (K × V)) → get k d ≡ none → erase k d ≡ d
  unfolding get erase
  erase_missing k [] h = refl
  erase_missing k ((j, w) ∷ d) h = elim (Bool-cases (eqb j k)) [
    | inl same ↦ absurd (cc (rw (get, same) at h))
    | inr other ↦
        rw (erase, other) (ap (λ r. (j, w) ∷ r) (erase_missing k d (rw (get, other) at h)))
  ]
