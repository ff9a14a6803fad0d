-- ===== src/Prelude/Keys.antt =====
-- Equality of keys as an interface, and its instances.
use mathlib.Core.Path.{◌≡◌, refl}
use mathlib.Core.Logic.{◌↔◌, inl, inr}
use mathlib.Core.Bool.{Bool, true, false, ◌||◌, ◌&&◌}
use mathlib.Core.List.{List, [], ◌∷◌}
use Prim.Native.Nat.{ℕ}
use Prim.Native.String.{String}
use text.Mathlib.Text.{◌==◌ as str_eq}
use text.Mathlib.TextEquality.{eq_iff as str_eq_iff}
use native.Mathlib.Omega.{arith}
use voip.Prelude.Tests.{◌==◌ as nat_eq, ==_iff, if◌then◌else◌, Bool-cases}

pub record Eq {ℓ} (A : Type ℓ) : Type ℓ where
  pub beq : A → A → Bool
  pub beq_iff : (a b : A) → (beq a b ≡ true) ↔ (a ≡ b)

instance abbrev pub ℕ-eq : Eq ℕ
ℕ-eq = record { beq = nat_eq; beq_iff = ==_iff }

instance abbrev pub String-eq : Eq String
String-eq = record { beq = str_eq; beq_iff = str_eq_iff }

module _ {ℓ} {A : Type ℓ} ⦃e : Eq A⦄ where
  abbrev pub eqb : A → A → Bool
  eqb = e.beq

  -- x in xs
  unfoldable pub member : A → List A → Bool
  member a [] = false
  member a (x ∷ xs) = eqb a x || member a xs

  -- A set is a list without repetitions; its order carries no meaning.
  unfoldable pub set_add : A → List A → List A
  set_add a xs = if member a xs then xs else a ∷ xs

  -- xs | ys
  unfoldable pub union : List A → List A → List A
  union [] ys = ys
  union (x ∷ xs) ys = set_add x (union xs ys)

  -- xs & ys
  unfoldable pub intersection : List A → List A → List A
  intersection [] ys = []
  intersection (x ∷ xs) ys = let rest = intersection xs ys in if member x ys then x ∷ rest else rest

  -- xs <= ys
  unfoldable pub subset : List A → List A → Bool
  subset [] ys = true
  subset (x ∷ xs) ys = member x ys && subset xs ys

  pub eqb_self : (a : A) → eqb a a ≡ true
  eqb_self a = (e.beq_iff a a).1 refl

  pub member-set_add : (a x : A) (xs : List A) → member a (set_add x xs) ≡ (eqb a x || member a xs)
  unfolding set_add member
  member-set_add a x xs = ground (arith, e.beq_iff a x)

  pub member-union :
      (a : A) (xs ys : List A) → member a (union xs ys) ≡ (member a xs || member a ys)
  unfolding union member
  member-union a [] ys = refl
  member-union a (x ∷ xs) ys =
      ground (arith, member-set_add a x (union xs ys), member-union a xs ys)

  pub member-intersection :
      (a : A) (xs ys : List A) → member a (intersection xs ys) ≡ (member a xs && member a ys)
  unfolding intersection member
  member-intersection a [] ys = refl
  member-intersection a (x ∷ xs) ys = ground (arith, e.beq_iff a x, member-intersection a xs ys)

  -- A subset, and only that, has each of its members in the other set.
  pub subset_sound :
      (xs ys : List A) → subset xs ys ≡ true → (a : A) → member a xs ≡ true → member a ys ≡ true
  unfolding subset member
  subset_sound [] ys h a m = cc
  subset_sound (x ∷ xs) ys h a m =
      ground (arith, e.beq_iff a x, subset_sound xs ys (ground arith) a)

  pub subset_complete :
      (xs ys : List A) → ((a : A) → member a xs ≡ true → member a ys ≡ true) → subset xs ys ≡ true
  unfolding subset member
  subset_complete [] ys h = refl
  subset_complete (x ∷ xs) ys h =
      let here = h x (ground (arith, eqb_self x)) in
      let rest = subset_complete xs ys (λ a m. h a (ground arith)) in ground (arith, here, rest)

  pub subset_witness :
      (xs ys : List A)
      → subset xs ys ≡ false
      → (a : A) × (member a xs ≡ true) × (member a ys ≡ false)
  unfolding subset member
  subset_witness [] ys h = absurd (cc h)
  subset_witness (x ∷ xs) ys h = elim (Bool-cases (member x ys)) [
    | inr new ↦ (x, ground (arith, eqb_self x), new)
    | inl old ↦
        let (a, here, there) = subset_witness xs ys (ground arith) in (a, ground arith, there)
  ]
