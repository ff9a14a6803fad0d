-- ===== src/Prelude/Predicates.antt =====
-- Predicates on lists by recursion, and a stable insertion sort that keeps them.
use mathlib.Core.Path.{◌≡◌}
use mathlib.Core.Logic.{◌⊎◌, inl, inr}
use mathlib.Core.Bool.{Bool, true, false}
use mathlib.Core.Option.{Option, none, some}
use mathlib.Core.List.{List, [], ◌∷◌, ◌++◌}
use voip.Prelude.Tests.{Bool-cases, if◌then◌else◌}

-- `P` of the result, where there is one.
abbrev pub Yields {ℓ κ} : {A : Type ℓ} → (A → Type κ) → Option A → Type κ
Yields P none = Unit
Yields P (some x) = P x

pub Yields-some {ℓ κ} :
    {A : Type ℓ} (P : A → Type κ) (o : Option A) (x : A) → Yields P o → o ≡ some x → P x
Yields-some P o x y e = rw e at y

module _ {ℓ κ} {A : Type ℓ} where
  abbrev pub All : (A → Type κ) → List A → Type κ
  All P [] = Unit
  All P (x ∷ xs) = P x × All P xs

  -- `R` holds of each element and each behind it.
  abbrev pub Pairwise : (A → A → Type κ) → List A → Type κ
  Pairwise R [] = Unit
  Pairwise R (x ∷ xs) = All (R x) xs × Pairwise R xs

  pub All-append : (P : A → Type κ) (xs ys : List A) → All P xs → All P ys → All P (xs ++ ys)
  All-append P [] ys hx hy = hy
  All-append P (x ∷ xs) ys hx hy = (hx.0, All-append P xs ys hx.1 hy)

module _ {ℓ κ} {A : Type ℓ} where
  pub All-map : (P Q : A → Type κ) (xs : List A) → ((x : A) → P x → Q x) → All P xs → All Q xs
  All-map P Q [] f h = tt
  All-map P Q (x ∷ xs) f h = (f x h.0, All-map P Q xs f h.1)

  pub All-zip :
      (P Q R : A → Type κ) (xs : List A)
      → ((x : A) → P x → Q x → R x)
      → All P xs
      → All Q xs
      → All R xs
  All-zip P Q R [] f h k = tt
  All-zip P Q R (x ∷ xs) f h k = (f x h.0 k.0, All-zip P Q R xs f h.1 k.1)

module _ {ℓ} {A : Type ℓ} where
  abbrev pub Any : (A → Type 0) → List A → Type 0
  Any P [] = ⊥
  Any P (x ∷ xs) = P x ⊎ Any P xs

  pub Any-append_left : (P : A → Type 0) (xs ys : List A) → Any P xs → Any P (xs ++ ys)
  Any-append_left P [] ys h = elim h [ ]
  Any-append_left P (x ∷ xs) ys (inl h) = inl h
  Any-append_left P (x ∷ xs) ys (inr h) = inr (Any-append_left P xs ys h)

  pub Any-append_right : (P : A → Type 0) (xs ys : List A) → Any P ys → Any P (xs ++ ys)
  Any-append_right P [] ys h = h
  Any-append_right P (x ∷ xs) ys h = inr (Any-append_right P xs ys h)

  pub Any-map : (P Q : A → Type 0) (xs : List A) → ((x : A) → P x → Q x) → Any P xs → Any Q xs
  Any-map P Q [] f h = h
  Any-map P Q (x ∷ xs) f (inl h) = inl (f x h)
  Any-map P Q (x ∷ xs) f (inr h) = inr (Any-map P Q xs f h)

module _ {ℓ} {A : Type ℓ} (le : A → A → Bool) where
  -- Behind all that may stand before it.
  unfoldable pub insert_by : A → List A → List A
  insert_by x [] = x ∷ []
  insert_by x (y ∷ ys) = let rest = insert_by x ys in if le y x then y ∷ rest else x ∷ (y ∷ ys)

  -- Elements that compare equal keep their order.
  unfoldable pub sort_onto : List A → List A → List A
  unfolding insert_by
  sort_onto sorted [] = sorted
  sort_onto sorted (x ∷ xs) = sort_onto (insert_by x sorted) xs

  abbrev pub sort_by : List A → List A
  sort_by xs = sort_onto [] xs

  insert_by-All {κ} :
      (P : A → Type κ) (x : A) (ys : List A) → P x → All P ys → All P (insert_by x ys)
  unfolding insert_by
  insert_by-All P x [] hx h = (hx, tt)
  insert_by-All P x (y ∷ ys) hx h = elim (Bool-cases (le y x)) [
    | inl before ↦ rw before (h.0, insert_by-All P x ys hx h.1)
    | inr behind ↦ rw behind (hx, h)
  ]

  insert_by-Any_new : (P : A → Type 0) (x : A) (ys : List A) → P x → Any P (insert_by x ys)
  unfolding insert_by
  insert_by-Any_new P x [] hx = inl hx
  insert_by-Any_new P x (y ∷ ys) hx = elim (Bool-cases (le y x)) [
    | inl before ↦ rw before (inr (insert_by-Any_new P x ys hx))
    | inr behind ↦ rw behind (inl hx)
  ]

  insert_by-Any_cons :
      (P : A → Type 0) (x y : A) (ys : List A)
      → (Any P ys → Any P (insert_by x ys))
      → Any P (y ∷ ys)
      → Any P (y ∷ insert_by x ys)
  insert_by-Any_cons P x y ys f (inl h) = inl h
  insert_by-Any_cons P x y ys f (inr h) = inr (f h)

  insert_by-Any : (P : A → Type 0) (x : A) (ys : List A) → Any P ys → Any P (insert_by x ys)
  unfolding insert_by
  insert_by-Any P x [] h = inr h
  insert_by-Any P x (y ∷ ys) h = elim (Bool-cases (le y x)) [
    | inl before ↦ rw before (insert_by-Any_cons P x y ys (insert_by-Any P x ys) h)
    | inr behind ↦ rw behind (inr h)
  ]

  pub sort_onto-All {κ} :
      (P : A → Type κ) (sorted xs : List A) → All P sorted → All P xs → All P (sort_onto sorted xs)
  unfolding sort_onto
  sort_onto-All P sorted [] hs h = hs
  sort_onto-All P sorted (x ∷ xs) hs h =
      sort_onto-All P (insert_by x sorted) xs (insert_by-All P x sorted h.0 hs) h.1

  pub sort_onto-Any_kept :
      (P : A → Type 0) (sorted xs : List A) → Any P sorted → Any P (sort_onto sorted xs)
  unfolding sort_onto
  sort_onto-Any_kept P sorted [] h = h
  sort_onto-Any_kept P sorted (x ∷ xs) h =
      sort_onto-Any_kept P (insert_by x sorted) xs (insert_by-Any P x sorted h)

  pub sort_onto-Any : (P : A → Type 0) (sorted xs : List A) → Any P xs → Any P (sort_onto sorted xs)
  unfolding sort_onto
  sort_onto-Any P sorted [] h = elim h [ ]
  sort_onto-Any P sorted (x ∷ xs) (inl h) =
      sort_onto-Any_kept P (insert_by x sorted) xs (insert_by-Any_new P x sorted h)
  sort_onto-Any P sorted (x ∷ xs) (inr h) = sort_onto-Any P (insert_by x sorted) xs h

  -- A symmetric relation between all elements survives any reordering.
  module _ {κ} (R : A → A → Type κ) (symmetric : (x y : A) → R x y → R y x) where
    insert_by-Pairwise :
        (x : A) (ys : List A) → All (R x) ys → Pairwise R ys → Pairwise R (insert_by x ys)
    unfolding insert_by
    insert_by-Pairwise x [] hx h = (tt, tt)
    insert_by-Pairwise x (y ∷ ys) hx h = elim (Bool-cases (le y x)) [
      | inl before ↦
          rw before
            (insert_by-All (R y) x ys (symmetric x y hx.0) h.0, insert_by-Pairwise x ys hx.1 h.1)
      | inr behind ↦ rw behind (hx, h)
    ]

    pub sort_onto-Pairwise :
        (sorted xs : List A)
        → Pairwise R sorted
        → Pairwise R xs
        → All (λ x. All (R x) sorted) xs
        → Pairwise R (sort_onto sorted xs)
    unfolding sort_onto
    sort_onto-Pairwise sorted [] hs h a = hs
    sort_onto-Pairwise sorted (x ∷ xs) hs h a =
        sort_onto-Pairwise (insert_by x sorted) xs (insert_by-Pairwise x sorted a.0 hs) h.1
          (across xs h.0 a.1)
      where
        across :
            (zs : List A)
            → All (R x) zs
            → All (λ z. All (R z) sorted) zs
            → All (λ z. All (R z) (insert_by x sorted)) zs
        across [] r b = tt
        across (z ∷ zs) r b =
            (insert_by-All (R z) x sorted (symmetric x z r.0) b.0, across zs r.1 b.1)

  -- The result is in order.
  module _ {κ} (R : A → A → Type κ) (chain : (x y z : A) → R x y → R y z → R x z)
      (yes_le : (x y : A) → le x y ≡ true → R x y)
      (not_le : (x y : A) → le x y ≡ false → R y x) where
    insert_by-Sorted : (x : A) (ys : List A) → Pairwise R ys → Pairwise R (insert_by x ys)
    unfolding insert_by
    insert_by-Sorted x [] h = (tt, tt)
    insert_by-Sorted x (y ∷ ys) h = elim (Bool-cases (le y x)) [
      | inl before ↦
          rw before (insert_by-All (R y) x ys (yes_le y x before) h.0, insert_by-Sorted x ys h.1)
      | inr behind ↦
          let r = not_le y x behind in
          rw behind ((r, All-map (R y) (R x) ys (λ z. chain x y z r) h.0), h)
    ]

    pub sort_onto-Sorted :
        (sorted xs : List A) → Pairwise R sorted → Pairwise R (sort_onto sorted xs)
    unfolding sort_onto
    sort_onto-Sorted sorted [] h = h
    sort_onto-Sorted sorted (x ∷ xs) h =
        sort_onto-Sorted (insert_by x sorted) xs (insert_by-Sorted x sorted h)

pub if_keeps {ℓ κ} :
    {A : Type ℓ} (P : A → Type κ) (b : Bool) (x y : A) → P x → P y → P (if b then x else y)
if_keeps P true x y hx hy = hx
if_keeps P false x y hx hy = hy
