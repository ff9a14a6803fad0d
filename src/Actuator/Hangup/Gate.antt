-- ===== src/Actuator/Hangup/Gate.antt =====
-- When a hangup reaches Asterisk, and what the counters say of it.
use voip.Prelude.{
  ℕ, suc, ◌+◌, ◌≡◌, refl, Bool, true, false, not, ◌&&◌, Option, none, some, arith, leb,
  if◌then◌else◌, length, Text, ◌∷◌, Bool-cases, inl, inr,
}
use voip.Actuator.Lines.{starts_with}
use voip.Actuator.Asked.{hangups, is_hangup}
use voip.Actuator.Cli.{Cli, rx, answered, rx_command_limit}
use voip.Actuator.Resolver.{Resolution, ok}
use voip.Actuator.Hangup.{
  Hangup, Detail, channel_of, hangup_command, refuse, act, attempt, issue, execute,
}

-- The gate: resolved without doubt, short enough for the CLI, and enforcement is on.
abbrev pub may_act : Resolution → Hangup → Bool
may_act r h =
    ok r && (not (leb rx_command_limit (length (hangup_command (channel_of r)))) && h.enforce)

module _ (run : ℕ → Text → Option Text) (r : Resolution) (h : Hangup) (cli : Cli) where
  -- The whole effect of `execute`, by the gate.
  pub record Gated (result : (Bool × Detail) × Hangup × Cli) : Type 0 where
    pub acted : result.0.0 ≡ may_act r h
    pub commands : result.2.calls ≡ cli.calls + (if may_act r h then 1 else 0)
    pub sent :
        result.2.sent ≡ (if may_act r h then hangup_command (channel_of r) ∷ cli.sent else cli.sent)
    pub executed : result.1.executed ≡ h.executed + (if may_act r h then 1 else 0)
    pub attempted : result.1.attempted ≡ suc h.attempted
    pub failed : result.1.failed ≡ h.failed
    pub same_mode : result.1.enforce ≡ h.enforce

  refused_Gated : (d : Detail) → may_act r h ≡ false → Gated ((false, d), refuse (attempt h), cli)
  unfolding refuse attempt
  refused_Gated d e = record {
    acted = ground (arith, e);
    commands = rw e (omega arith);
    sent = rw e refl;
    executed = rw e (omega arith);
    attempted = refl;
    failed = refl;
    same_mode = refl;
  }

  shadow_Gated : (d : Detail) → may_act r h ≡ false → Gated ((false, d), attempt h, cli)
  unfolding attempt
  shadow_Gated d e = record {
    acted = ground (arith, e);
    commands = rw e (omega arith);
    sent = rw e refl;
    executed = rw e (omega arith);
    attempted = refl;
    failed = refl;
    same_mode = refl;
  }

  answered-sent :
      (command : Text) (a : Option Text)
      → ((answered command cli a).1.calls ≡ suc cli.calls)
        × ((answered command cli a).1.sent ≡ command ∷ cli.sent)
  unfolding answered
  answered-sent command none = (refl, refl)
  answered-sent command (some out) = (refl, refl)

  rx_short :
      leb rx_command_limit (length (hangup_command (channel_of r))) ≡ false
      → rx run cli (hangup_command (channel_of r))
        ≡ some (
            answered
              (hangup_command (channel_of r))
              cli
              (run cli.calls (hangup_command (channel_of r))))
  unfolding rx
  rx_short short = rw short refl

  issue-Gated :
      may_act r h ≡ true
      → leb rx_command_limit (length (hangup_command (channel_of r))) ≡ false
      → Gated (issue run (channel_of r) (attempt h) cli)
  unfolding issue act attempt
  issue-Gated e short =
      let command = hangup_command (channel_of r) in
      let (calls, sent) = answered-sent command (run cli.calls command) in
      rw (issue, rx_short short)
        (record {
          acted = ground (arith, e);
          commands = rw e (omega (arith, calls));
          sent = rw e sent;
          executed = rw e (omega arith);
          attempted = refl;
          failed = refl;
          same_mode = refl;
        })

  -- A hangup is issued if and only if the channel was resolved without ambiguity, the command is
  -- below the limit and enforcement is on: then exactly one command is sent, the hangup of this channel,
  -- and `executed` counts it.
  -- Otherwise no command is sent. Each attempt is counted, and `failed` never moves.
  pub execute-Gated : Gated (execute run r h cli)
  unfolding execute
  execute-Gated = elim (Bool-cases (ok r)) [
    | inr doubt ↦ rw doubt (refused_Gated _ (ground (arith, doubt)))
    | inl sure ↦
        rw sure (elim (Bool-cases (leb rx_command_limit (length (hangup_command (channel_of r))))) [
          | inl long ↦ rw long (refused_Gated _ (ground (arith, long)))
          | inr short ↦ rw short (elim (Bool-cases h.enforce) [
            | inl on ↦ rw (not_off on) (issue-Gated (ground (arith, sure, short, on)) short)
            | inr off ↦ rw (not_on off) (shadow_Gated _ (ground (arith, off)))
          ])
        ])
  ]
    where
      not_off : h.enforce ≡ true → not h.enforce ≡ false
      not_off e = ground (arith, e)

      not_on : h.enforce ≡ false → not h.enforce ≡ true
      not_on e = ground (arith, e)

  -- What was sent asks for one hangup more, if it may act.
  pub hangups-execute :
      hangups (execute run r h cli).2.sent ≡ hangups cli.sent + (if may_act r h then 1 else 0)
  unfolding hangups is_hangup hangup_command starts_with
  hangups-execute = elim (Bool-cases (may_act r h)) [
    | inl may ↦ let sent = execute-Gated.sent in rw (rw may at sent, may) (omega arith)
    | inr may_not ↦ let sent = execute-Gated.sent in rw (rw may_not at sent, may_not) (omega arith)
  ]
