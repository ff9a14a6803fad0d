-- ===== src/Actuator/Hangup.antt =====
-- `Hangup` of phraseguard/actuator.py.
pub mod Gate
use voip.Prelude.{
  ℕ, suc, Bool, true, false, not, List, ◌++◌, Option, none, some, leb, if◌then◌else◌, length, Text,
  codes,
}
use voip.Metaphone.Loop.{is_empty}
use voip.Actuator.Lines.{strip}
use voip.Actuator.Cli.{Cli, rx, rx_command_limit}
use voip.Actuator.Resolver.{Resolution, Reason, ok}

pub record Hangup : Type 0 where
  pub enforce : Bool
  pub attempted : ℕ
  pub executed : ℕ
  pub refused : ℕ
  pub failed : ℕ

-- The texts of `detail`.
pub data Detail : Type 0 where
  unresolved : Reason → Detail
  too_long : ℕ → Detail
  shadow : Text → Detail
  hangup_failed : Detail
  answered : Text → Detail
  requested : Text → Detail

-- resolution.channel, where it is one
unfoldable pub channel_of : Resolution → Text
channel_of r = elim r.channel [ none ↦ codes "None" | some name ↦ name ]

unfoldable pub hangup_command : Text → Text
hangup_command name = codes "channel request hangup " ++ name

unfoldable pub refuse : Hangup → Hangup
refuse h = record {
  enforce = h.enforce;
  attempted = h.attempted;
  executed = h.executed;
  refused = suc h.refused;
  failed = h.failed;
}

unfoldable pub fail : Hangup → Hangup
fail h = record {
  enforce = h.enforce;
  attempted = h.attempted;
  executed = h.executed;
  refused = h.refused;
  failed = suc h.failed;
}

unfoldable pub act : Hangup → Hangup
act h = record {
  enforce = h.enforce;
  attempted = h.attempted;
  executed = suc h.executed;
  refused = h.refused;
  failed = h.failed;
}

unfoldable pub attempt : Hangup → Hangup
attempt h = record {
  enforce = h.enforce;
  attempted = suc h.attempted;
  executed = h.executed;
  refused = h.refused;
  failed = h.failed;
}

-- out.strip() or ("requested hangup on %s" % chan)
unfoldable pub detail_of : Text → Text → Detail
detail_of out name =
    if is_empty (strip out) then Detail.requested name else Detail.answered (strip out)

-- The command is issued.
unfoldable pub issue :
    (ℕ → Text → Option Text) → Text → Hangup → Cli → (Bool × Detail) × Hangup × Cli
issue run name h cli = elim (rx run cli (hangup_command name)) [
  | none ↦ ((false, Detail.hangup_failed), fail h, cli)
  | some (out, cli') ↦ ((true, detail_of out name), act h, cli')
]

unfoldable pub execute :
    (ℕ → Text → Option Text) → Resolution → Hangup → Cli → (Bool × Detail) × Hangup × Cli
execute run resolution h cli =
    let h' = attempt h in
    let name = channel_of resolution in
    if not (ok resolution)
    then ((false, Detail.unresolved resolution.reason), refuse h', cli)
    else if leb rx_command_limit (length (hangup_command name))
    then ((false, Detail.too_long (length (hangup_command name))), refuse h', cli)
    else if not h.enforce
    then ((false, Detail.shadow name), h', cli)
    else issue run name h' cli
