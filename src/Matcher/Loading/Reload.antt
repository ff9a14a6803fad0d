-- ===== src/Matcher/Loading/Reload.antt =====
-- A reload never loses the corpus, and never half-installs one.
use voip.Prelude.{
  ℕ, ◌+◌, ◌≤◌, ◌≡◌, ◌⊎◌, inl, inr, refl, Bool, true, false, ◌&&◌, not, List, [], ◌∷◌, Option, none,
  some, arith, ◌==◌, if◌then◌else◌, length, Bool-cases, All, All-map,
}
use voip.Matcher.Phrases.{Phrase}
use voip.Matcher.Index.{build_index}
use voip.Matcher.Loading.{
  LoadError, Outcome, State, widest, install, keep, stat_failed, settle_load, reload_if_changed,
}

-- The index and the span belong to the phrases.
pub record WellFormed (s : State) : Type 0 where
  pub indexed : s.by_index ≡ build_index s.phrases
  pub spans : All (λ p. length p.tokens + 1 ≤ s.max_span) s.phrases

widest-All : (ps : List Phrase) → All (λ p. length p.tokens + 1 ≤ widest ps) ps
unfolding widest
widest-All [] = tt
widest-All (p ∷ ps) = (
  omega arith,
  All-map (λ q. length q.tokens + 1 ≤ widest ps) (λ q. length q.tokens + 1 ≤ widest (p ∷ ps)) ps
      (λ q h. omega (arith, h)) (widest-All ps),
)

-- The result of a reload, by whether it is reported as done.
pub record Reloaded (s : State) (result : Bool × State) : Type 0 where
  pub wellformed : WellFormed result.1
  pub kept : (result.0 ≡ true) ⊎ (result.1.phrases ≡ s.phrases)
  pub counted : result.1.reload_count ≡ s.reload_count + (if result.0 then 1 else 0)

settle_load-Reloaded :
    (o : Outcome (List Phrase)) (before after : ℕ) (s : State)
    → WellFormed s
    → Reloaded s (settle_load o before after s)
unfolding settle_load install keep
settle_load-Reloaded (Outcome.loaded ps) before after s w = record {
  wellformed = record { indexed = refl; spans = widest-All ps };
  kept = inl refl;
  counted = omega arith;
}
settle_load-Reloaded (Outcome.refused e) before after s w = record {
  wellformed = record { indexed = w.indexed; spans = w.spans };
  kept = inr refl;
  counted = omega arith;
}

-- Where the index and the span belong to the phrases, they do so after a reload, whether it
-- succeeds or fails; a reload that is not reported as done keeps the phrases; and only one that is
-- done is counted.
pub reload_if_changed-Reloaded :
    (stat : Option ℕ) (after : ℕ) (outcome : Outcome (List Phrase)) (force : Bool) (s : State)
    → WellFormed s
    → Reloaded s (reload_if_changed stat after outcome force s)
unfolding reload_if_changed stat_failed
reload_if_changed-Reloaded none after outcome force s w = record {
  wellformed = record { indexed = w.indexed; spans = w.spans };
  kept = inr refl;
  counted = omega arith;
}
reload_if_changed-Reloaded (some stat) after outcome force s w =
    elim (Bool-cases (not force && (stat == s.mtime && not (length s.phrases == 0)))) [
      | inl same ↦
          rw (reload_if_changed, same)
            (record { wellformed = w; kept = inr refl; counted = omega arith })
      | inr changed ↦ rw (reload_if_changed, changed) (settle_load-Reloaded outcome stat after s w)
    ]

keep_again :
    (e : LoadError) (stat after : ℕ) (outcome : Outcome (List Phrase)) (s : State)
    → (length s.phrases == 0) ≡ false
    → reload_if_changed (some stat) after outcome false (keep e stat s) ≡ (false, keep e stat s)
unfolding reload_if_changed keep
keep_again e stat after outcome s some_kept =
    let same : (stat == stat) ≡ true = ground arith in ground (arith, same, some_kept)

-- Where phrases are loaded and a reload was refused, a later reload that finds the file unchanged
-- and is not forced does nothing, whatever the file would give.
pub reload_if_changed_once :
    (e : LoadError) (stat after after' : ℕ) (outcome : Outcome (List Phrase)) (force : Bool)
    (s : State)
    → (length s.phrases == 0) ≡ false
    → reload_if_changed
        (some stat)
        after'
        outcome
        false
        (reload_if_changed (some stat) after (Outcome.refused e) force s).1
      ≡ (false, (reload_if_changed (some stat) after (Outcome.refused e) force s).1)
unfolding reload_if_changed settle_load
reload_if_changed_once e stat after after' outcome force s some_kept =
    elim (Bool-cases (not force && (stat == s.mtime && not (length s.phrases == 0)))) [
      | inr changed ↦ rw (reload_if_changed, changed) (keep_again e stat after' outcome s some_kept)
      | inl same ↦
          let still : (stat == s.mtime && not (length s.phrases == 0)) ≡ true =
            ground (arith, same) in
          rw (reload_if_changed, same, still) refl
    ]
