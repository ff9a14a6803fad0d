-- ===== src/Daemon/Enforced.antt =====
-- phraseguard/phraseguardd.py: what it takes for handle_match to end a call.
use voip.Prelude.{
  if_keeps, ℕ, suc, ◌+◌, ◌≤◌, Bool, true, false, not, List, [], ◌∷◌, Option, none, some, Text,
  String, ◌≡◌, refl, sym, ◌∙◌, ◌⊎◌, inl, inr, Bool-cases, Option-cases, arith,
}
use voip.Matcher.Phrases.{Tier, Match, same_tier}
use voip.Matcher.Window.{Window, note_hit, accept}
use voip.Matcher.Scorer.{Scorer, should_fire}
use voip.Actuator.Cli.{Cli}
use voip.Actuator.Asked.{hangups}
use voip.Actuator.Live.{IsLinked}
use voip.Actuator.Resolver.{Resolution, ok, resolve}
use voip.Actuator.Resolved.{resolve-Resolved}
use voip.Actuator.Hangup.{execute}
use voip.Actuator.Hangup.Gate.{may_act, execute-Gated, hangups-execute}
use voip.Tap.Sip.{CallInfo}
use voip.Daemon.Audio.{handle_all}
use voip.Daemon.Hits.{
  Guard, Stats, call_of, action_of, count_action, count_match, note, kill, weigh_up, handle_match,
}

-- What the counters say of an action.
acted_kills :
    (acted sure : Bool) (s : Stats)
    → ((acted ≡ true) × ((count_action (action_of acted sure) s).kills ≡ suc s.kills))
      ⊎ ((acted ≡ false) × ((count_action (action_of acted sure) s).kills ≡ s.kills))
unfolding count_action action_of
acted_kills true sure s = inl (refl, refl)
acted_kills false true s = inr (refl, refl)
acted_kills false false s = inr (refl, refl)

-- Hangups sent, hangups counted and kills, before and after: none, or one of each with enforcement on.
abbrev OneAtMost : Bool → ℕ × ℕ × ℕ → ℕ × ℕ × ℕ → Type 0
OneAtMost on (h, n, k) (h', n', k') =
    ((h' ≡ h) × (n' ≡ n) × (k' ≡ k)) ⊎ ((on ≡ true) × (h' ≡ suc h) × (n' ≡ suc n) × (k' ≡ suc k))

one_at_most :
    (on : Bool) (h n k h' n' k' : ℕ)
    → OneAtMost on (h, n, k) (h', n', k')
    → (h' + k ≡ h + k') × (n' + k ≡ n + k') × ((on ≡ true) ⊎ (h' ≡ h))
one_at_most on h n k h' n' k' (inl (sent, counted, kills)) = (omega arith, omega arith, inr sent)
one_at_most on h n k h' n' k' (inr (yes_on, sent, counted, kills)) =
    (omega arith, omega arith, inl yes_on)

module _ {Float : Type 0} (run : ℕ → Text → Option Text) (int_of : Text → Option ℕ)
    (is_digit : ℕ → Bool) where
  -- What all matches keep: a hangup is sent to Asterisk only with enforcement on, and the hangups sent,
  -- those that the actuator counts and the kills of the statistics grow by the same number.
  abbrev pub Enforced : Guard Float → Guard Float → Type 0
  Enforced g g' =
      IsLinked g'.resolver.table
      × (g'.hangup.enforce ≡ g.hangup.enforce)
      × (hangups g'.cli.sent + g.stats.kills ≡ hangups g.cli.sent + g'.stats.kills)
      × (g'.hangup.executed + g.stats.kills ≡ g.hangup.executed + g'.stats.kills)
      × ((g.hangup.enforce ≡ true) ⊎ (hangups g'.cli.sent ≡ hangups g.cli.sent))

  kill-Enforced :
      (clock : ℕ) (tier : Tier) (category : String) (call : Option CallInfo) (g : Guard Float)
      → IsLinked g.resolver.table
      → Enforced g (kill run int_of is_digit clock tier category call (count_match g)).0
  unfolding kill count_action note
  kill-Enforced clock tier category none g l = (l, refl, refl, refl, inr refl)
  kill-Enforced clock tier category (some c) g l =
      let resolved =
        resolve-Resolved run int_of is_digit (call_of c) clock clock clock g.resolver g.cli l in
      let (resolver, cli, found) =
        resolve run int_of is_digit (call_of c) clock clock clock g.resolver g.cli in
      let asked = resolved.asked in
      elim (Option-cases found) [
        | inl raises ↦
            rw (kill, raises) (resolved.linked, refl, omega (arith, asked), refl, inr asked)
        | inr (r, got) ↦
            let result = execute run r g.hangup cli in
            let s = count_action (action_of result.0.0 (ok r)) (count_match g).stats in
            let (sent, counted, only) =
              one_at_most g.hangup.enforce (hangups cli.sent) g.hangup.executed g.stats.kills
                (hangups result.2.sent) result.1.executed s.kills (restrained r cli) in
            rw (kill, got)
              (
                resolved.linked,
                (execute-Gated run r g.hangup cli).same_mode,
                omega (arith, sent, asked),
                counted,
                joined g.hangup.enforce asked only,
              )
      ]
    where
      restrained :
          (r : Resolution) (cli : Cli)
          → let result = execute run r g.hangup cli in
            let s = count_action (action_of result.0.0 (ok r)) (count_match g).stats in
            OneAtMost g.hangup.enforce
              (hangups cli.sent, g.hangup.executed, g.stats.kills)
              (hangups result.2.sent, result.1.executed, s.kills)
      restrained r cli =
          let result = execute run r g.hangup cli in
          let gated = execute-Gated run r g.hangup cli in
          let sent = hangups-execute run r g.hangup cli in
          elim (acted_kills result.0.0 (ok r) (count_match g).stats) [
            | inl (acted, kills) ↦
                let may : may_act r g.hangup ≡ true = sym gated.acted ∙ acted in
                inr (
                  ground (arith, may),
                  rw may at sent ∙ omega arith,
                  rw may at gated.executed ∙ omega arith,
                  kills,
                )
            | inr (idle, kills) ↦
                let may : may_act r g.hangup ≡ false = sym gated.acted ∙ idle in
                inl (rw may at sent ∙ omega arith, rw may at gated.executed ∙ omega arith, kills)
          ]

      joined :
          {h h' h'' : ℕ} (on : Bool) → h' ≡ h → (on ≡ true) ⊎ (h'' ≡ h') → (on ≡ true) ⊎ (h'' ≡ h)
      joined on e (inl yes_on) = inl yes_on
      joined on e (inr same) = inr (same ∙ e)

  pub Enforced-chain : (g g' g'' : Guard Float) → Enforced g g' → Enforced g' g'' → Enforced g g''
  Enforced-chain g g' g'' (l, e, sent, counted, only) (l', e', sent', counted', only') =
      (l', e' ∙ e, omega (arith, sent, sent'), omega (arith, counted, counted'), joined only only')
    where
      joined :
          (g.hangup.enforce ≡ true) ⊎ (hangups g'.cli.sent ≡ hangups g.cli.sent)
          → (g'.hangup.enforce ≡ true) ⊎ (hangups g''.cli.sent ≡ hangups g'.cli.sent)
          → (g.hangup.enforce ≡ true) ⊎ (hangups g''.cli.sent ≡ hangups g.cli.sent)
      joined (inl on) o = inl on
      joined (inr same) (inl on) = inl (sym e ∙ on)
      joined (inr same) (inr same') = inr (same' ∙ same)

  -- No command was issued and no call ended, and one B event came at most.
  abbrev pub Quiet : Guard Float → Guard Float → Type 0
  Quiet g g' =
      (g'.cli ≡ g.cli)
      × (g'.hangup ≡ g.hangup)
      × (g'.stats.kills ≡ g.stats.kills)
      × (g'.stats.b_events ≤ suc g.stats.b_events)

  module _ {Score : Type 0} (scorer : Scorer) where
    weigh_up-Enforced :
        (clock : ℕ) (m : Match Score) (call : Option CallInfo) (w : Window Score) (g : Guard Float)
        → IsLinked g.resolver.table
        → Enforced g (weigh_up run int_of is_digit scorer clock m call w (count_match g)).1
    unfolding weigh_up note
    weigh_up-Enforced clock m call w g l =
        if_keeps (Enforced g) (should_fire scorer w).1.fired _ _ (l, refl, refl, refl, inr refl)
          (l, refl, refl, refl, inr refl)

    handle_match-Enforced :
        (clock : ℕ) (m : Match Score) (call : Option CallInfo) (w : Window Score) (g : Guard Float)
        → IsLinked g.resolver.table
        → Enforced g (handle_match run int_of is_digit scorer clock m call w g).1
    unfolding handle_match
    handle_match-Enforced clock m call w g l = elim (Bool-cases (same_tier m.tier Tier.a)) [
      | inl tier_a ↦
          rw (handle_match, tier_a) (kill-Enforced clock m.tier m.phrase.category call g l)
      | inr other ↦
          rw (handle_match, other) (weigh_up-Enforced clock m call (note_hit w m clock) g l)
    ]

    -- A match of any tier but A issues no command, ends no call, raises nothing, and adds at most one
    -- B event.
    pub handle_match-Quiet :
        (clock : ℕ) (m : Match Score) (call : Option CallInfo) (w : Window Score) (g : Guard Float)
        → same_tier m.tier Tier.a ≡ false
        → let (w', g', raises) = handle_match run int_of is_digit scorer clock m call w g in
          Quiet g g' × (raises ≡ false)
    unfolding handle_match weigh_up note
    handle_match-Quiet clock m call w g other =
        let (cli, gate, kills, events) =
          if_keeps (Quiet g) (should_fire scorer (note_hit w m clock)).1.fired _ _
            (refl, refl, refl, omega arith) (refl, refl, refl, omega arith) in
        rw (handle_match, other) ((cli, gate, kills, events), refl)

    pub handle_all-Enforced :
        (clock : ℕ) (call : Option CallInfo) (ms : List (Match Score)) (w : Window Score)
        (g : Guard Float)
        → IsLinked g.resolver.table
        → Enforced g (handle_all run int_of is_digit scorer clock call ms w g).1
    unfolding handle_all
    handle_all-Enforced clock call [] w g l = (l, refl, refl, refl, inr refl)
    handle_all-Enforced clock call (m ∷ ms) w g l =
        let (w', fresh) = accept w m in
        let (w'', g', raises) = handle_match run int_of is_digit scorer clock m call w' g in
        let here = handle_match-Enforced clock m call w' g l in
        if_keeps (λ (r : Window Score × Guard Float × Bool). Enforced g r.1) (not fresh) _ _
          (handle_all-Enforced clock call ms w
            (record g { stats = record g.stats { duplicates = suc g.stats.duplicates } }) l)
          (if_keeps (λ (r : Window Score × Guard Float × Bool). Enforced g r.1) raises
            (w'', g', true) _ here
            (Enforced-chain g g' (handle_all run int_of is_digit scorer clock call ms w'' g').1 here
              (handle_all-Enforced clock call ms w'' g' here.0)))
