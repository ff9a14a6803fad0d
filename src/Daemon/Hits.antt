-- ===== src/Daemon/Hits.antt =====
-- phraseguard/phraseguardd.py: PhraseGuard.handle_match, from one match to what is done about it.
-- Asterisk, int and str.isdigit are parameters. A result `true` beside the state is an exception, which
-- the look-up of the channel can raise. `clock` is time.time() through one match.
use voip.Prelude.{
  ℕ, suc, Bool, true, false, List, [], ◌∷◌, ◌++◌, Option, none, some, if◌then◌else◌, Text, String,
}
use voip.Matcher.Phrases.{Tier, Match, same_tier}
use voip.Matcher.Window.{Window, note_hit}
use voip.Matcher.Scorer.{Scorer, should_fire}
use voip.Actuator.Cli.{Cli}
use voip.Actuator.Resolver.{ChannelResolver, Call, ok, resolve}
use voip.Actuator.Hangup.{Hangup, execute}
use voip.Record.Counters.{CustomerCounters, Kind, add}
use voip.Tap.Sip.{CallInfo}

pub data Action : Type 0 where
  no_call : Action
  hangup : Action
  would_hangup : Action
  unresolved : Action
  log : Action

-- What the recorder is given.
pub data Entry : Type 0 where
  matched : Tier → String → Option CallInfo → Action → Option Text → Entry
  b_threshold : Option CallInfo → ℕ → List String → List String → Entry

pub record Stats : Type 0 where
  pub utterances : ℕ
  pub matches : ℕ
  pub kills : ℕ
  pub would_kill : ℕ
  pub b_events : ℕ
  pub unresolved : ℕ
  pub duplicates : ℕ
  pub refused_streams : ℕ

-- What handle_match changes, but for the window.
pub record Guard (Float : Type 0) : Type 0 where
  pub resolver : ChannelResolver
  pub cli : Cli
  pub hangup : Hangup
  pub counters : CustomerCounters Float
  pub stats : Stats
  pub recorded : List Entry

-- What the resolver reads of a call; an address or a number that is not known is "".
unfoldable pub or_empty : Option Text → Text
or_empty none = []
or_empty (some s) = s

unfoldable pub call_of : CallInfo → Call
unfolding or_empty
call_of c = record {
  call_id = c.call_id;
  customer_ip = or_empty c.customer_ip;
  dnis = or_empty c.dnis;
  started = c.started;
}

-- call.customer_ip if call else None: None and "" are the same to the counters.
unfoldable pub source_of : Option CallInfo → Text
unfolding or_empty
source_of none = []
source_of (some c) = or_empty c.customer_ip

-- The action on a Tier A match: what execute said, and whether the resolution was sure.
unfoldable pub action_of : Bool → Bool → Action
action_of acted sure =
    if acted then Action.hangup else if sure then Action.would_hangup else Action.unresolved

-- The counter of an action.
unfoldable pub count_action : Action → Stats → Stats
count_action Action.hangup s = record s { kills = suc s.kills }
count_action Action.would_hangup s = record s { would_kill = suc s.would_kill }
count_action Action.unresolved s = record s { unresolved = suc s.unresolved }
count_action Action.no_call s = record s { unresolved = suc s.unresolved }
count_action Action.log s = s

module _ {Float : Type 0} where
  abbrev pub count_match : Guard Float → Guard Float
  count_match g = record g { stats = record g.stats { matches = suc g.stats.matches } }

  -- self.counters.add(src_ip, kind), and the entry of the match.
  unfoldable pub note : ℕ → Option CallInfo → Option Kind → Entry → Guard Float → Guard Float
  unfolding source_of add
  note clock call kind entry g = record g {
    counters = add (source_of call) kind clock g.counters;
    recorded = g.recorded ++ (entry ∷ []);
  }

  module _ (run : ℕ → Text → Option Text) (int_of : Text → Option ℕ) (is_digit : ℕ → Bool) where
    -- A Tier A match.
    unfoldable pub kill : ℕ → Tier → String → Option CallInfo → Guard Float → Guard Float × Bool
    unfolding resolve execute call_of action_of count_action note
    kill clock tier category none g = (
      note clock none (some Kind.kill) (Entry.matched tier category none Action.no_call none)
          (record g { stats = count_action Action.no_call g.stats }),
      false,
    )
    kill clock tier category (some c) g =
        let (resolver, cli, found) =
          resolve run int_of is_digit (call_of c) clock clock clock g.resolver g.cli in
        elim found [
          | none ↦ (record g { resolver = resolver; cli = cli }, true)
          | some resolution ↦
              let ((acted, detail), gate, cli') = execute run resolution g.hangup cli in
              let action = action_of acted (ok resolution) in
              (
                note clock (some c) (some Kind.kill)
                    (Entry.matched tier category (some c) action resolution.channel)
                    (record g {
                      resolver = resolver;
                      cli = cli';
                      hangup = gate;
                      stats = count_action action g.stats;
                    }),
                false,
              )
        ]

    module _ {Score : Type 0} (scorer : Scorer) where
      -- A match of any other tier, with the window that has it.
      unfoldable pub weigh_up :
          ℕ
          → Match Score
          → Option CallInfo
          → Window Score
          → Guard Float
          → Window Score × Guard Float
      unfolding should_fire note
      weigh_up clock m call w g =
          let near = if same_tier m.tier Tier.a_near then some Kind.near else none in
          let g' =
            note clock call near (Entry.matched m.tier m.phrase.category call Action.log none) g in
          let (w', verdict) = should_fire scorer w in
          let fired =
            note clock call (some Kind.b_event)
              (Entry.b_threshold call verdict.score verdict.contributing verdict.suppressing)
              (record g' { stats = record g'.stats { b_events = suc g'.stats.b_events } }) in
          (w', if verdict.fired then fired else g')

      unfoldable pub handle_match :
          ℕ
          → Match Score
          → Option CallInfo
          → Window Score
          → Guard Float
          → Window Score × Guard Float × Bool
      unfolding kill weigh_up note_hit same_tier
      handle_match clock m call w g =
          let w' = note_hit w m clock in
          let g' = count_match g in
          let (killed, raises) = kill clock m.tier m.phrase.category call g' in
          let (w'', weighed) = weigh_up clock m call w' g' in
          if same_tier m.tier Tier.a then (w', killed, raises) else (w'', weighed, false)
