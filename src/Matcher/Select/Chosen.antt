-- ===== src/Matcher/Select/Chosen.antt =====
-- What `match` returns, from the raw matches: a description without the loops.
use voip.Prelude.{
  ◌≤◌, ◌≡◌, refl, ◌⊎◌, inl, inr, Bool, true, false, ◌&&◌, List, [], ◌∷◌, ◌++◌, arith, Bool-cases,
  All, Any, Pairwise, All-map, All-append, Any-append_left, Any-append_right, str_eq, str_eq_iff,
}
use voip.Prelude.Predicates.{
  sort_onto, sort_onto-All, sort_onto-Any, sort_onto-Pairwise, sort_onto-Sorted,
}
use voip.Matcher.Phrases.{Match}
use voip.Matcher.Spans.{FloatOps, less}
use voip.Matcher.Select.{
  meets, vetoes_of, apply_veto, clashes, choose, ranks_before, stands_before, select,
}
use voip.Matcher.Select.Veto.{IsFree, apply_veto-All, apply_veto-IsFree, apply_veto-Any}

module _ {Score : Type 0} where
  -- The two report the same category on overlapping words.
  abbrev pub clash : Match Score → Match Score → Bool
  clash a b = meets a b && str_eq a.phrase.category b.phrase.category

  clash_symm : (a b : Match Score) → clash a b ≡ false → clash b a ≡ false
  unfolding meets
  clash_symm a b h = ground (
    arith,
    str_eq_iff a.phrase.category b.phrase.category,
    str_eq_iff b.phrase.category a.phrase.category,
  )

  clashes-All :
      (chosen : List (Match Score)) (m : Match Score)
      → clashes chosen m ≡ false
      → All (λ o. clash o m ≡ false) chosen
  unfolding clashes
  clashes-All [] m h = tt
  clashes-All (o ∷ os) m h = (ground arith, clashes-All os m (ground arith))

  clashes-Any :
      (chosen : List (Match Score)) (m : Match Score)
      → clashes chosen m ≡ true
      → Any (λ o. clash o m ≡ true) chosen
  unfolding clashes
  clashes-Any [] m h = cc
  clashes-Any (o ∷ os) m h = elim (Bool-cases (clash o m)) [
    | inl here ↦ inl here
    | inr later ↦ inr (clashes-Any os m (rw later at h))
  ]

  Pairwise-append :
      (R : Match Score → Match Score → Type 0) (xs : List (Match Score)) (m : Match Score)
      → Pairwise R xs
      → All (λ o. R o m) xs
      → Pairwise R (xs ++ (m ∷ []))
  Pairwise-append R [] m p h = (tt, tt)
  Pairwise-append R (x ∷ xs) m p h =
      (All-append (R x) xs (m ∷ []) p.0 (h.0, tt), Pairwise-append R xs m p.1 h.1)

  choose-All :
      (P : Match Score → Type 0) (chosen ms : List (Match Score))
      → All P chosen
      → All P ms
      → All P (choose chosen ms)
  unfolding choose
  choose-All P chosen [] h hs = h
  choose-All P chosen (m ∷ ms) h hs = elim (Bool-cases (clashes chosen m)) [
    | inl hit ↦ rw hit (choose-All P chosen ms h hs.1)
    | inr new ↦
        rw new
          (choose-All P (chosen ++ (m ∷ [])) ms (All-append P chosen (m ∷ []) h (hs.0, tt)) hs.1)
  ]

  choose-Pairwise :
      (chosen ms : List (Match Score))
      → Pairwise (λ a b. clash a b ≡ false) chosen
      → Pairwise (λ a b. clash a b ≡ false) (choose chosen ms)
  unfolding choose
  choose-Pairwise chosen [] h = h
  choose-Pairwise chosen (m ∷ ms) h = elim (Bool-cases (clashes chosen m)) [
    | inl hit ↦ rw hit (choose-Pairwise chosen ms h)
    | inr new ↦ rw new (
        choose-Pairwise (chosen ++ (m ∷ [])) ms
          (Pairwise-append (λ a b. clash a b ≡ false) chosen m h (clashes-All chosen m new)))
  ]

  choose-Any_kept :
      (P : Match Score → Type 0) (chosen ms : List (Match Score))
      → Any P chosen
      → Any P (choose chosen ms)
  unfolding choose
  choose-Any_kept P chosen [] h = h
  choose-Any_kept P chosen (m ∷ ms) h = elim (Bool-cases (clashes chosen m)) [
    | inl hit ↦ rw hit (choose-Any_kept P chosen ms h)
    | inr new ↦
        rw new (choose-Any_kept P (chosen ++ (m ∷ [])) ms (Any-append_left P chosen (m ∷ []) h))
  ]

module _ (ops : FloatOps) where
  open ops use {Float, leb, leb_trans, leb_total}

  -- `o` stands for `m`: it is `m`, or it clashes with it and scores at least as much.
  abbrev pub StandsFor : Match Float → Match Float → Type 0
  StandsFor o m = (o ≡ m) ⊎ ((clash o m ≡ true) × (leb m.score o.score ≡ true))

  abbrev BestFirst : Match Float → Match Float → Type 0
  BestFirst a b = leb b.score a.score ≡ true

  All-Any :
      (P Q R : Match Float → Type 0) (xs : List (Match Float))
      → ((x : Match Float) → P x → Q x → R x)
      → All P xs
      → Any Q xs
      → Any R xs
  All-Any P Q R [] f h a = a
  All-Any P Q R (x ∷ xs) f h (inl a) = inl (f x h.0 a)
  All-Any P Q R (x ∷ xs) f h (inr a) = inr (All-Any P Q R xs f h.1 a)

  choose-StandsFor :
      (chosen ms : List (Match Float)) (m : Match Float)
      → Pairwise BestFirst ms
      → All (λ o. All (BestFirst o) ms) chosen
      → Any (λ k. k ≡ m) ms
      → Any (λ o. StandsFor o m) (choose chosen ms)
  unfolding choose
  choose-StandsFor chosen [] m s a h = elim h [ ]
  choose-StandsFor chosen (k ∷ ks) m s a (inl e) = rw (← e) (elim (Bool-cases (clashes chosen k)) [
    | inl hit ↦ rw hit (
        choose-Any_kept (λ o. StandsFor o k) chosen ks
          (All-Any (λ o. All (BestFirst o) (k ∷ ks)) (λ o. clash o k ≡ true) (λ o. StandsFor o k)
            chosen (λ o best c. inr (c, best.0)) a (clashes-Any chosen k hit)))
    | inr new ↦ rw new (
        choose-Any_kept (λ o. StandsFor o k) (chosen ++ (k ∷ [])) ks
          (Any-append_right (λ o. StandsFor o k) chosen (k ∷ []) (inl (inl refl))))
  ])
  choose-StandsFor chosen (k ∷ ks) m s a (inr h) =
      let a' =
        All-map (λ o. All (BestFirst o) (k ∷ ks)) (λ o. All (BestFirst o) ks) chosen
          (λ o best. best.1) a in
      elim (Bool-cases (clashes chosen k)) [
        | inl hit ↦ rw hit (choose-StandsFor chosen ks m s.1 a' h)
        | inr new ↦ rw new (
            choose-StandsFor (chosen ++ (k ∷ [])) ks m s.1
              (All-append (λ o. All (BestFirst o) ks) chosen (k ∷ []) a' (s.0, tt)) h)
      ]

  ranks_first : (m n : Match Float) → ranks_before ops m n ≡ true → BestFirst m n
  unfolding ranks_before less
  ranks_first m n h = ground (arith, leb_total m.score n.score)

  ranks_last : (m n : Match Float) → ranks_before ops m n ≡ false → BestFirst n m
  unfolding ranks_before less
  ranks_last m n h = ground (arith, leb_total n.score m.score)

  stands_first : (m n : Match Float) → stands_before ops m n ≡ true → m.start ≤ n.start
  unfolding stands_before
  stands_first m n h = ground arith

  stands_last : (m n : Match Float) → stands_before ops m n ≡ false → n.start ≤ m.start
  unfolding stands_before
  stands_last m n h = ground arith

  -- The result of `match`, told from the raw matches.
  pub record Selected (raw result : List (Match Float)) : Type 0 where
    pub known : All (λ m. Any (λ k. k ≡ m) raw) result
    pub free : All (IsFree (vetoes_of raw)) result
    pub apart : Pairwise (λ a b. clash a b ≡ false) result
    pub covered :
        (m : Match Float)
        → Any (λ k. k ≡ m) raw
        → IsFree (vetoes_of raw) m
        → Any (λ o. StandsFor o m) result
    pub in_order : Pairwise (λ a b. a.start ≤ b.start) result

  All-self : (raw : List (Match Float)) → All (λ m. Any (λ k. k ≡ m) raw) raw
  All-self [] = tt
  All-self (m ∷ ms) = (
    inl refl,
    All-map (λ k. Any (λ j. j ≡ k) ms) (λ k. Any (λ j. j ≡ k) (m ∷ ms)) ms (λ k h. inr h)
        (All-self ms),
  )

  -- Nothing that is an exclusion, or overlaps one, is returned; what is returned was found, in the
  -- order of its start, and never twice for one category on overlapping words; every other match is
  -- returned or stands behind one of its category that overlaps it and scores at least as much.
  pub select-Selected : (raw : List (Match Float)) → Selected raw (select ops false raw)
  unfolding select
  select-Selected raw =
      let free = apply_veto false raw in
      let ranked = sort_onto (ranks_before ops) [] free in
      let chosen = choose [] ranked in
      record {
        known =
            sort_onto-All (stands_before ops) (λ m. Any (λ k. k ≡ m) raw) [] chosen tt
              (choose-All (λ m. Any (λ k. k ≡ m) raw) [] ranked tt
                (sort_onto-All (ranks_before ops) (λ m. Any (λ k. k ≡ m) raw) [] free tt
                  (apply_veto-All (λ m. Any (λ k. k ≡ m) raw) false raw (All-self raw))));
        free = sort_onto-All (stands_before ops) (IsFree (vetoes_of raw)) [] chosen tt (
            choose-All (IsFree (vetoes_of raw)) [] ranked tt (
              sort_onto-All (ranks_before ops) (IsFree (vetoes_of raw)) [] free tt
                (apply_veto-IsFree raw)));
        apart =
            sort_onto-Pairwise (stands_before ops) (λ a b. clash a b ≡ false) clash_symm [] chosen
              tt (choose-Pairwise [] ranked tt) (All-tt chosen);
        covered = λ m here isfree.
            sort_onto-Any (stands_before ops) (λ o. StandsFor o m) [] chosen
              (choose-StandsFor [] ranked m
                (sort_onto-Sorted (ranks_before ops) BestFirst
                  (λ x y z p q. leb_trans z.score y.score x.score q p) ranks_first ranks_last []
                  free tt)
                tt
                (sort_onto-Any (ranks_before ops) (λ k. k ≡ m) [] free
                  (apply_veto-Any raw m isfree here)));
        in_order =
            sort_onto-Sorted (stands_before ops) (λ a b. a.start ≤ b.start)
              (λ x y z p q. omega arith) stands_first stands_last [] chosen tt;
      }
    where
      All-tt : (xs : List (Match Float)) → All (λ x. Unit {0}) xs
      All-tt [] = tt
      All-tt (x ∷ xs) = (tt, All-tt xs)
