-- ===== src/Matcher/Scorer/Sets.antt =====
-- Which categories the scorer counts, told from the hits one at a time.
use voip.Prelude.{
  ◌≤◌, ◌≡◌, ◌≢◌, refl, ◌⊎◌, inl, inr, String, Bool, true, false, ◌||◌, List, [], ◌∷◌, ◌++◌, arith,
  str_eq_iff, length, eqb, String-eq, eqb_self, member, set_add, member-set_add,
}
use voip.Matcher.Phrases.{Tier}
use voip.Matcher.Window.{Hit}
use voip.Matcher.Scorer.{contribute, restrain, contributing_of, suppressing_of}

-- A Tier B hit signals its category; a near miss of a Tier A phrase signals "A-near".
abbrev pub signals_one : String → Tier → String → Bool
signals_one k Tier.b category = eqb k category
signals_one k Tier.a_near category = eqb k "A-near"
signals_one k _ category = false

module _ {ℓ} {Score : Type ℓ} where
  unfoldable pub signals : String → List (Hit Score) → Bool
  signals k [] = false
  signals k (h ∷ hs) = signals_one k h.tier h.category || signals k hs

member-contribute :
    (k : String) (t : Tier) (category : String) (xs : List String)
    → member k (contribute t category xs) ≡ (signals_one k t category || member k xs)
unfolding contribute
member-contribute k Tier.b category xs = member-set_add k category xs
member-contribute k Tier.a_near category xs = member-set_add k "A-near" xs
member-contribute k _ category xs = refl

-- A set of two different members has at least two.
pub two_members :
    (xs : List String) (k j : String)
    → member k xs ≡ true
    → member j xs ≡ true
    → k ≢ j
    → 2 ≤ length xs
unfolding member
two_members [] k j h1 h2 ne = cc
two_members (x ∷ []) k j h1 h2 ne = absurd (ne (ground (arith, str_eq_iff k x, str_eq_iff j x)))
two_members (x ∷ y ∷ xs) k j h1 h2 ne = omega arith

restrain-nil : (t : Tier) (category : String) → t ≢ Tier.c → restrain t category [] ≡ []
unfolding restrain
restrain-nil Tier.c category h = absurd (h refl)
restrain-nil _ category h = refl

contribute_one :
    (k : String) (t : Tier) (category : String) (xs : List String)
    → (t ≡ Tier.b → category ≡ k)
    → t ≢ Tier.a_near
    → (xs ≡ []) ⊎ (xs ≡ k ∷ [])
    → (contribute t category xs ≡ []) ⊎ (contribute t category xs ≡ k ∷ [])
unfolding contribute set_add member
contribute_one k Tier.b category xs same near (inl e) = inr (rw (e, same refl))
contribute_one k Tier.b category xs same near (inr e) =
    inr (rw (e, same refl) (ground (arith, eqb_self k)))
contribute_one k Tier.a_near category xs same near h = absurd (near refl)
contribute_one k _ category xs same near h = h

module _ {ℓ} {Score : Type ℓ} where
  pub member-contributing_of :
      (k : String) (xs : List String) (hs : List (Hit Score))
      → member k (contributing_of xs hs) ≡ (signals k hs || member k xs)
  unfolding contributing_of signals
  member-contributing_of k xs [] = refl
  member-contributing_of k xs (h ∷ hs) = ground (
    arith,
    member-contributing_of k (contribute h.tier h.category xs) hs,
    member-contribute k h.tier h.category xs,
  )

  pub contributing_of-append :
      (xs : List String) (hs : List (Hit Score)) (h : Hit Score)
      → contributing_of xs (hs ++ (h ∷ [])) ≡ contribute h.tier h.category (contributing_of xs hs)
  unfolding contributing_of
  contributing_of-append xs [] h = refl
  contributing_of-append xs (g ∷ hs) h =
      contributing_of-append (contribute g.tier g.category xs) hs h

  pub suppressing_of-append :
      (xs : List String) (hs : List (Hit Score)) (h : Hit Score)
      → suppressing_of xs (hs ++ (h ∷ [])) ≡ restrain h.tier h.category (suppressing_of xs hs)
  unfolding suppressing_of
  suppressing_of-append xs [] h = refl
  suppressing_of-append xs (g ∷ hs) h = suppressing_of-append (restrain g.tier g.category xs) hs h

  -- No Tier C hit, no suppression.
  abbrev pub NoSuppressor : List (Hit Score) → Type 0
  NoSuppressor [] = Unit
  NoSuppressor (h ∷ hs) = (h.tier ≢ Tier.c) × NoSuppressor hs

  pub suppressing_of-nil : (hs : List (Hit Score)) → NoSuppressor hs → suppressing_of [] hs ≡ []
  unfolding suppressing_of
  suppressing_of-nil [] n = refl
  suppressing_of-nil (h ∷ hs) n =
      rw (restrain-nil h.tier h.category n.0) (suppressing_of-nil hs n.1)

  -- Every Tier B hit is of category `k`, and there is no near miss.
  abbrev pub OneCategory : String → List (Hit Score) → Type 0
  OneCategory k [] = Unit
  OneCategory k (h ∷ hs) =
      ((h.tier ≡ Tier.b) → h.category ≡ k) × (h.tier ≢ Tier.a_near) × OneCategory k hs

  pub contributing_of_one :
      (k : String) (hs : List (Hit Score)) (xs : List String)
      → OneCategory k hs
      → (xs ≡ []) ⊎ (xs ≡ k ∷ [])
      → (contributing_of xs hs ≡ []) ⊎ (contributing_of xs hs ≡ k ∷ [])
  unfolding contributing_of
  contributing_of_one k [] xs o h = h
  contributing_of_one k (h ∷ hs) xs o x =
      contributing_of_one k hs (contribute h.tier h.category xs) o.2
        (contribute_one k h.tier h.category xs o.0 o.1 x)
