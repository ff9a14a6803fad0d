-- ===== src/Actuator/Cli.antt =====
-- `AsteriskCLI` of phraseguard/actuator.py. The subprocess is a parameter: what it answers to a
-- command, by the number of the call; `none` is an exception or a timeout.
use voip.Prelude.{ℕ, suc, List, [], ◌∷◌, Option, none, some, leb, if◌then◌else◌, length, Text}

-- RX_COMMAND_LIMIT
abbrev pub rx_command_limit : ℕ
rx_command_limit = 490

-- `sent` is what was given to `asterisk -rx`, the last command first.
pub record Cli : Type 0 where
  pub calls : ℕ
  pub errors : ℕ
  pub sent : List Text

-- The command was sent, and this is the answer.
unfoldable pub answered : Text → Cli → Option Text → Text × Cli
answered command cli none =
    ([], record { calls = suc cli.calls; errors = suc cli.errors; sent = command ∷ cli.sent })
answered command cli (some out) =
    (out, record { calls = suc cli.calls; errors = cli.errors; sent = command ∷ cli.sent })

-- `none` is the ValueError on a command at or over the limit, raised before any fork.
unfoldable pub rx : (ℕ → Text → Option Text) → Cli → Text → Option (Text × Cli)
rx run cli command =
    if leb rx_command_limit (length command)
    then none
    else some (answered command cli (run cli.calls command))
