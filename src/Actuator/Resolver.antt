-- ===== src/Actuator/Resolver.antt =====
-- `Resolution` and `ChannelResolver` of phraseguard/actuator.py.
use voip.Prelude.{
  ℕ, zero, suc, ◌+◌, ◌-◌, Bool, true, false, ◌&&◌, ◌||◌, not, List, [], ◌∷◌, Option, none, some,
  ltb, if◌then◌else◌, length, Text, same_text, Text-eq,
}
use voip.Prelude.Dict
use voip.Metaphone.Loop.{is_empty}
use voip.Actuator.Lines.{drop_leading}
use voip.Actuator.Cli.{Cli}
use voip.Actuator.Channels.{Channel, ChannelTable, refresh}
use voip.Actuator.Probe.{probe_all}

pub data Method : Type 0 where
  callid heuristic : Method

-- The texts of Resolution.reason.
pub data Reason : Type 0 where
  callid_matched no_carrier unique_candidate no_match : Reason
  refusing : ℕ → Reason

pub record Resolution : Type 0 where
  pub channel : Option Text
  pub how : Option Method
  pub candidates : List Text
  pub ambiguous : Bool
  pub reason : Reason

-- bool(self.channel) and not self.ambiguous
unfoldable pub ok : Resolution → Bool
ok r = elim r.channel [ none ↦ false | some name ↦ not (is_empty name) && not r.ambiguous ]

pub record Stats : Type 0 where
  pub exact : ℕ
  pub heuristic : ℕ
  pub ambiguous : ℕ
  pub miss : ℕ

-- What the resolver reads of tap.CallInfo.
pub record Call : Type 0 where
  pub call_id : Text
  pub customer_ip : Text
  pub dnis : Text
  pub started : ℕ

pub record ChannelResolver : Type 0 where
  pub table : ChannelTable
  pub endpoint_for_ip : List (Text × Text)
  pub allow_heuristic : Bool
  pub age_tolerance : ℕ
  pub stats : Stats

unfoldable pub count_exact : Stats → Stats
count_exact s = record {
  exact = suc s.exact;
  heuristic = s.heuristic;
  ambiguous = s.ambiguous;
  miss = s.miss;
}

unfoldable pub count_heuristic : Stats → Stats
count_heuristic s = record {
  exact = s.exact;
  heuristic = suc s.heuristic;
  ambiguous = s.ambiguous;
  miss = s.miss;
}

unfoldable pub count_ambiguous : Stats → Stats
count_ambiguous s = record {
  exact = s.exact;
  heuristic = s.heuristic;
  ambiguous = suc s.ambiguous;
  miss = s.miss;
}

unfoldable pub count_miss : Stats → Stats
count_miss s = record {
  exact = s.exact;
  heuristic = s.heuristic;
  ambiguous = s.ambiguous;
  miss = suc s.miss;
}

-- `is_digit` is str.isdigit of one character.
module _ (is_digit : ℕ → Bool) where
  unfoldable pub digits : Text → Text
  digits [] = []
  digits (c ∷ cs) = let rest = digits cs in if is_digit c then c ∷ rest else rest

  unfoldable pub wrong_endpoint : Option Text → Channel → Bool
  wrong_endpoint none ch = false
  wrong_endpoint (some []) ch = false
  wrong_endpoint (some (c ∷ e)) ch = elim ch.endpoint [
    | none ↦ true
    | some f ↦ not (same_text f (c ∷ e))
  ]

  unfoldable pub wrong_number : Text → Channel → Bool
  wrong_number dnis ch =
      let d = digits ch.exten in
      not (is_empty dnis)
      && not (
          same_text d dnis
          || (same_text d (drop_leading 49 dnis) || same_text d (49 ∷ drop_leading 49 dnis)))

  -- abs(ch.duration - (now - call.started)) > tolerance
  unfoldable pub wrong_age : ℕ → ℕ → ℕ → Channel → Bool
  wrong_age tolerance now zero ch = false
  wrong_age tolerance now (suc t) ch =
      let lived = ch.duration + suc t in ltb tolerance ((lived - now) + (now - lived))

  unfoldable pub is_candidate : ChannelResolver → Call → ℕ → Channel → Bool
  is_candidate r call now ch =
      not (wrong_endpoint (Dict.get call.customer_ip r.endpoint_for_ip) ch)
      && (not (wrong_number (digits call.dnis) ch)
          && not (wrong_age r.age_tolerance now call.started ch))

  unfoldable pub candidates_of : ChannelResolver → Call → ℕ → List (Text × Channel) → List Text
  candidates_of r call now [] = []
  candidates_of r call now ((name, ch) ∷ channels) =
      let rest = candidates_of r call now channels in
      if is_candidate r call now ch then name ∷ rest else rest

  -- The end of `resolve`, by the candidates found.
  unfoldable pub judge : List Text → Stats → Resolution × Stats
  judge [] stats = (
    record {
      channel = none;
      how = none;
      candidates = [];
      ambiguous = false;
      reason = Reason.no_match;
    },
    count_miss stats,
  )
  judge (c ∷ []) stats = (
    record {
      channel = some c;
      how = some Method.heuristic;
      candidates = c ∷ [];
      ambiguous = false;
      reason = Reason.unique_candidate;
    },
    count_heuristic stats,
  )
  judge (c ∷ d ∷ cs) stats = (
    record {
      channel = none;
      how = some Method.heuristic;
      candidates = c ∷ d ∷ cs;
      ambiguous = true;
      reason = Reason.refusing (length (c ∷ d ∷ cs));
    },
    count_ambiguous stats,
  )

  unfoldable pub fall_back : ChannelResolver → Call → ℕ → Resolution × Stats
  fall_back r call now =
      if r.allow_heuristic then judge (candidates_of r call now r.table.channels) r.stats else (
        record {
          channel = none;
          how = none;
          candidates = [];
          ambiguous = false;
          reason = Reason.no_carrier;
        },
        count_miss r.stats,
      )

  -- The look-up by Call-ID, or else the fallback.
  unfoldable pub decide : ChannelResolver → Call → ℕ → Resolution × Stats
  decide r call now = elim (Dict.get call.call_id r.table.by_call_id) [
    | none ↦ fall_back r call now
    | some name ↦ (
      record {
        channel = some name;
        how = some Method.callid;
        candidates = name ∷ [];
        ambiguous = false;
        reason = Reason.callid_matched;
      },
      count_exact r.stats,
    )
  ]

unfoldable pub with_table : ChannelResolver → ChannelTable → ChannelResolver
with_table r table = record {
  table = table;
  endpoint_for_ip = r.endpoint_for_ip;
  allow_heuristic = r.allow_heuristic;
  age_tolerance = r.age_tolerance;
  stats = r.stats;
}

unfoldable pub with_stats : ChannelResolver → Stats → ChannelResolver
with_stats r stats = record {
  table = r.table;
  endpoint_for_ip = r.endpoint_for_ip;
  allow_heuristic = r.allow_heuristic;
  age_tolerance = r.age_tolerance;
  stats = stats;
}

-- In place of the count of probe_all, an exception.
unfoldable pub is_raise : Option ℕ → Bool
is_raise none = true
is_raise (some n) = false

module _ (run : ℕ → Text → Option Text) (int_of : Text → Option ℕ) where
  -- The bounded probe, where the Call-ID is not known yet.
  unfoldable pub probe_unknown : Text → ℕ → ChannelTable → Cli → ChannelTable × Cli × Bool
  probe_unknown id clock table cli = elim (Dict.get id table.by_call_id) [
    | some name ↦ (table, cli, false)
    | none ↦
        (let (table', cli', n) = probe_all run int_of (some 32) clock table cli in
          (table', cli', is_raise n))
  ]

  -- The table after the refresh and the probe, which read time.time() each; `true` is an exception.
  unfoldable pub look_up : Text → ℕ → ℕ → ChannelTable → Cli → ChannelTable × Cli × Bool
  unfolding probe_unknown
  look_up id clock probed_at table cli =
      let (table', cli', raises) = refresh run int_of clock false table cli in
      let probed = probe_unknown id probed_at table' cli' in
      if raises then (table', cli', true) else probed

module _ (run : ℕ → Text → Option Text) (int_of : Text → Option ℕ) (is_digit : ℕ → Bool) where
  -- `clock` and `probed_at` are time.time(), which the table reads twice; `now` is the argument, for the
  -- age of the call. `none` in place of the resolution is an exception.
  unfoldable pub resolve :
      Call → ℕ → ℕ → ℕ → ChannelResolver → Cli → ChannelResolver × Cli × Option Resolution
  resolve call clock probed_at now r cli =
      let (table, cli', raises) = look_up run int_of call.call_id clock probed_at r.table cli in
      let r' = with_table r table in
      let (resolution, stats) = decide is_digit r' call now in
      if raises then (r', cli', none) else (with_stats r' stats, cli', some resolution)
