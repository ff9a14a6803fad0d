-- ===== src/Actuator/Asked.antt =====
-- phraseguard/actuator.py: the commands that ask Asterisk for a hangup, among all that were sent.
use voip.Prelude.{
  ℕ, suc, ◌+◌, ◌≤◌, ◌≡◌, refl, Bool, false, not, ◌&&◌, List, [], ◌∷◌, Option, none, some, arith,
  leb, ltb, if◌then◌else◌, length, Text, codes, Yields, Yields-some, Bool-cases, Option-cases, inl,
  inr,
}
use voip.Actuator.Lines.{starts_with}
use voip.Actuator.Cli.{Cli, rx, answered}
use voip.Actuator.Channels.{ChannelTable, refresh}

unfoldable pub is_hangup : Text → Bool
unfolding starts_with
is_hangup command = starts_with (codes "channel request hangup ") command

-- How many of the commands ask for a hangup.
unfoldable pub hangups : List Text → ℕ
unfolding is_hangup
hangups [] = 0
hangups (command ∷ sent) = let rest = hangups sent in if is_hangup command then suc rest else rest

-- At most so many commands were sent, and none that asks for a hangup.
abbrev pub Asks : ℕ → Cli → Cli → Type 0
Asks n cli cli' = (cli'.calls ≤ cli.calls + n) × (hangups cli'.sent ≡ hangups cli.sent)

answered-Asks :
    (command : Text) (cli : Cli) (answer : Option Text)
    → is_hangup command ≡ false
    → Asks 1 cli (answered command cli answer).1
unfolding answered hangups
answered-Asks command cli none other = (omega arith, rw other refl)
answered-Asks command cli (some out) other = (omega arith, rw other refl)

pub rx-Asks :
    (run : ℕ → Text → Option Text) (cli : Cli) (command : Text)
    → is_hangup command ≡ false
    → Yields (λ r. Asks 1 cli r.1) (rx run cli command)
unfolding rx
rx-Asks run cli command other = elim (Bool-cases (leb 490 (length command))) [
  | inl long ↦ rw long tt
  | inr short ↦ rw short (answered-Asks command cli (run cli.calls command) other)
]

pub refresh-Asks :
    (run : ℕ → Text → Option Text) (int_of : Text → Option ℕ) (now : ℕ) (force : Bool)
    (table : ChannelTable) (cli : Cli)
    → Asks 1 cli (refresh run int_of now force table cli).1
unfolding refresh is_hangup
refresh-Asks run int_of now force table cli =
    elim (Bool-cases (not force && ltb now (table.last_list + table.list_ttl))) [
      | inl recent ↦ rw (refresh, recent) (omega arith, refl)
      | inr due ↦ elim (Option-cases (rx run cli (codes "core show channels concise"))) [
        | inl raised ↦ rw (refresh, due, raised) (omega arith, refl)
        | inr ((out, cli'), got) ↦
            rw (refresh, due, got)
              (Yields-some (λ r. Asks 1 cli r.1) (rx run cli (codes "core show channels concise"))
                (out, cli') (rx-Asks run cli (codes "core show channels concise") refl) got)
      ]
    ]
