-- ===== src/Tap/Swept.antt =====
-- phraseguard/tap.py: what SipTracker._gc keeps, and what it forgets.
use voip.Prelude.{
  ℕ, ◌-◌, ◌*◌, Bool, true, false, List, [], ◌∷◌, ltb, Text, Text-eq, ◌≡◌, refl, sym, ap, subst, ◌∙◌,
  ◌⊎◌, inl, inr, All, All-map, Bool-cases, Option-cases, member, eqb_self, eqb, All-zip, ◌||◌,
}
use voip.Prelude.Dict
use voip.Tap.Sip.{CallInfo, SipTracker, is_dead, dead_ids, forget, forget_all, gc, at_gc, second}

abbrev pub Calls : Type 0
Calls = List (Text × CallInfo)

unfoldable pub erase_all : List Text → Calls → Calls
unfolding Dict.erase
erase_all [] calls = calls
erase_all (cid ∷ cids) calls = erase_all cids (Dict.erase cid calls)

forget-calls :
    (cid : Text) (t : SipTracker)
    → ((forget cid t).calls ≡ Dict.erase cid t.calls)
      × ((forget cid t).customer_ips ≡ t.customer_ips)
      × ((forget cid t).last_gc ≡ t.last_gc)
unfolding forget
forget-calls cid t = elim (Option-cases (Dict.get cid t.calls)) [
  | inl absent ↦ rw (forget, absent) (sym (Dict.erase_missing cid t.calls absent), refl, refl)
  | inr (c, present) ↦ rw (forget, present) (refl, refl, refl)
]

pub forget_all-calls :
    (cids : List Text) (t : SipTracker)
    → ((forget_all cids t).calls ≡ erase_all cids t.calls)
      × ((forget_all cids t).customer_ips ≡ t.customer_ips)
      × ((forget_all cids t).last_gc ≡ t.last_gc)
unfolding forget_all erase_all
forget_all-calls [] t = (refl, refl, refl)
forget_all-calls (cid ∷ cids) t =
    let (a, b, c) = forget_all-calls cids (forget cid t) in
    let (x, y, z) = forget-calls cid t in (a ∙ ap (erase_all cids) x, b ∙ y, c ∙ z)

pub erase_all-All {μ} :
    (P : Text × CallInfo → Type μ) (cids : List Text) (calls : Calls)
    → All P calls
    → All P (erase_all cids calls)
unfolding erase_all
erase_all-All P [] calls h = h
erase_all-All P (cid ∷ cids) calls h =
    erase_all-All P cids (Dict.erase cid calls) (Dict.erase-All P cid calls h)

or_false : (a b : Bool) → a ≡ false → b ≡ false → (a || b) ≡ false
or_false a b ha hb = rw (ha, hb) refl

or_right : (a b : Bool) → b ≡ true → (a || b) ≡ true
or_right true b h = refl
or_right false b h = h

or_left : (a b : Bool) → a ≡ true → (a || b) ≡ true
or_left a b h = rw h refl

-- Each call that is left has an id that was not to be erased.
erase_all-Lacks :
    (cids : List Text) (calls : Calls) → All (λ p. member p.0 cids ≡ false) (erase_all cids calls)
unfolding erase_all member
erase_all-Lacks [] calls = every calls
  where
    every : (calls : Calls) → All (λ p. member p.0 [] ≡ false) calls
    every [] = tt
    every (p ∷ calls) = (refl, every calls)
erase_all-Lacks (cid ∷ cids) calls =
    All-zip (λ p. eqb p.0 cid ≡ false) (λ p. member p.0 cids ≡ false)
      (λ p. member p.0 (cid ∷ cids) ≡ false) (erase_all cids (Dict.erase cid calls))
      (λ p. or_false (eqb p.0 cid) (member p.0 cids))
      (erase_all-All _ cids (Dict.erase cid calls) (Dict.erase-Lacks cid calls))
      (erase_all-Lacks cids (Dict.erase cid calls))

-- The calls that are dead have their id in `ids`.
abbrev Listed : ℕ → ℕ → List Text → Calls → Type 0
Listed expiry now ids calls =
    All (λ p. (member p.0 ids ≡ true) ⊎ (is_dead expiry now p.1 ≡ false)) calls

dead_ids-Listed :
    (expiry now : ℕ) (calls : Calls) → Listed expiry now (dead_ids expiry now calls) calls
unfolding dead_ids member
dead_ids-Listed expiry now [] = tt
dead_ids-Listed expiry now ((cid, c) ∷ calls) = elim (Bool-cases (is_dead expiry now c)) [
  | inl dead ↦
      let ids = dead_ids expiry now calls in
      let e : dead_ids expiry now ((cid, c) ∷ calls) ≡ cid ∷ ids = rw (dead_ids, dead) refl in
      subst (λ d. Listed expiry now d ((cid, c) ∷ calls)) (sym e)
        (
          inl (or_left (eqb cid cid) (member cid ids) (eqb_self cid)),
          All-map (λ p. (member p.0 ids ≡ true) ⊎ (is_dead expiry now p.1 ≡ false))
              (λ p. (member p.0 (cid ∷ ids) ≡ true) ⊎ (is_dead expiry now p.1 ≡ false)) calls
              (λ p h. elim h [
                | inl m ↦ inl (or_right (eqb p.0 cid) (member p.0 ids) m)
                | inr alive ↦ inr alive
              ])
              (dead_ids-Listed expiry now calls),
        )
  | inr alive ↦
      let e : dead_ids expiry now ((cid, c) ∷ calls) ≡ dead_ids expiry now calls =
        rw (dead_ids, alive) refl in
      subst (λ d. Listed expiry now d ((cid, c) ∷ calls)) (sym e)
        (inr alive, dead_ids-Listed expiry now calls)
]

-- No call is left that ended long ago or is too old.
abbrev pub IsSwept : ℕ → ℕ → Calls → Type 0
IsSwept expiry now calls = All (λ p. is_dead expiry now p.1 ≡ false) calls

erase_all-IsSwept :
    (expiry now : ℕ) (calls : Calls)
    → IsSwept expiry now (erase_all (dead_ids expiry now calls) calls)
erase_all-IsSwept expiry now calls =
    let ids = dead_ids expiry now calls in
    All-zip (λ p. member p.0 ids ≡ false)
      (λ p. (member p.0 ids ≡ true) ⊎ (is_dead expiry now p.1 ≡ false))
      (λ p. is_dead expiry now p.1 ≡ false) (erase_all ids calls)
      (λ p gone h. elim h [ inl m ↦ absurd (cc (gone, m)) | inr alive ↦ alive ])
      (erase_all-Lacks ids calls) (erase_all-All _ ids calls (dead_ids-Listed expiry now calls))

pub gc-cases :
    (now : ℕ) (t : SipTracker)
    → ((ltb (now - t.last_gc) (60 * second) ≡ true) × (gc now t ≡ t))
      ⊎ (((gc now t).calls ≡ erase_all (dead_ids t.expiry now t.calls) t.calls)
          × IsSwept t.expiry now (gc now t).calls
          × ((gc now t).customer_ips ≡ t.customer_ips)
          × ((gc now t).last_gc ≡ now))
unfolding gc
gc-cases now t = elim (Bool-cases (ltb (now - t.last_gc) (60 * second))) [
  | inl early ↦ inl (early, rw (gc, early) refl)
  | inr due ↦
      let ids = dead_ids t.expiry now t.calls in
      let (a, b, c) = forget_all-calls ids (at_gc now t) in
      inr (rw (gc, due) (a, rw a (erase_all-IsSwept t.expiry now t.calls), b, c))
]
