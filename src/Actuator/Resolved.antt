-- ===== src/Actuator/Resolved.antt =====
-- What a resolution rests on.
use voip.Prelude.{
  if_keeps, ℕ, suc, ◌+◌, ◌≤◌, ◌≡◌, ◌⊎◌, refl, Bool, true, false, List, [], ◌∷◌, Option, none, some,
  arith, leb, if◌then◌else◌, length, Text, Text-eq, Yields, Option-cases, inl, inr,
}
use voip.Prelude.Dict
use voip.Actuator.Cli.{Cli}
use voip.Actuator.Channels.{ChannelTable, refresh, names_of}
use voip.Actuator.Probe.{probe_each, probe_all}
use voip.Actuator.Live.{Carries, IsLinked, refresh-IsLinked}
use voip.Actuator.Asked.{hangups, refresh-Asks}
use voip.Actuator.Exact.{Within, widen, probe_each-Within}
use voip.Actuator.Resolver.{
  Resolution, Method, Reason, Stats, Call, ChannelResolver, candidates_of, probe_unknown, look_up,
  resolve, decide, fall_back, judge, with_table, with_stats, count_exact, count_miss,
  count_heuristic, count_ambiguous,
}

module _ (run : ℕ → Text → Option Text) (int_of : Text → Option ℕ) where
  refresh-Within :
      (now : ℕ) (force : Bool) (table : ChannelTable) (cli : Cli)
      → IsLinked table
      → Within 1 cli (refresh run int_of now force table cli)
  refresh-Within now force table cli l = (
    refresh-IsLinked run int_of now force table cli l,
    refresh-Asks run int_of now force table cli,
  )

  -- A listing, and behind it what was sent without an exception.
  listed_first :
      {A : Type 0} (n now : ℕ) (table : ChannelTable) (cli : Cli) (stopped : A)
      (rest : ChannelTable × Cli × A)
      → IsLinked table
      → let (table', cli', raises) = refresh run int_of now false table cli in
        (IsLinked table' → Within n cli' rest)
        → Within (suc n) cli (if raises then (table', cli', stopped) else rest)
  listed_first n now table cli stopped rest l then_within =
      let (table', cli', raises) = refresh run int_of now false table cli in
      let (l', (calls, same)) = refresh-Within now false table cli l in
      if_keeps (Within (suc n) cli) raises (table', cli', stopped) rest
        (l', (omega (arith, calls), same))
        (widen (suc n) n cli cli' rest (calls, same) (omega arith) (then_within l'))

  probe_all-Within :
      (now limit : ℕ) (table : ChannelTable) (cli : Cli)
      → IsLinked table
      → Within (2 + limit) cli (probe_all run int_of (some (suc limit)) now table cli)
  unfolding probe_all
  probe_all-Within now limit table cli l =
      let (table', cli', raises) = refresh run int_of now false table cli in
      let probed = probe_each run (some (suc limit)) (names_of table'.channels) 0 table' cli' in
      let (linked, (calls, same)) = listed_first (suc limit) now table cli none probed l (λ l'.
        let (l'', (sent, quiet)) =
          probe_each-Within run limit 0 (names_of table'.channels) table' cli' (omega arith) l' in
        (l'', (omega (arith, sent), quiet))) in
      (linked, (omega (arith, calls), same))

  probe_unknown-Within :
      (id : Text) (probed_at : ℕ) (table : ChannelTable) (cli : Cli)
      → IsLinked table
      → Within 33 cli (probe_unknown run int_of id probed_at table cli)
  unfolding probe_unknown
  probe_unknown-Within id probed_at table cli l =
      elim (Option-cases (Dict.get id table.by_call_id)) [
        | inr (name, known) ↦ rw (probe_unknown, known) (l, (omega arith, refl))
        | inl unknown ↦ rw (probe_unknown, unknown) (probe_all-Within probed_at 31 table cli l)
      ]

  -- One look-up sends at most 34 commands: two listings and 32 probes.
  look_up-Within :
      (id : Text) (clock probed_at : ℕ) (table : ChannelTable) (cli : Cli)
      → IsLinked table
      → Within 34 cli (look_up run int_of id clock probed_at table cli)
  unfolding look_up
  look_up-Within id clock probed_at table cli l =
      let (table', cli', raises) = refresh run int_of clock false table cli in
      listed_first 33 clock table cli true (probe_unknown run int_of id probed_at table' cli') l
        (λ l'. probe_unknown-Within id probed_at table' cli' l')

-- What a resolution rests on: a channel that carries the Call-ID, or the one channel that agrees
-- with the call; where it names none, on nothing.
abbrev pub Rests : (ℕ → Bool) → Call → ℕ → ChannelResolver → Resolution → Option Text → Type 0
Rests is_digit call now r res none = Unit
Rests is_digit call now r res (some name) =
    ((res.how ≡ some Method.callid) × Carries r.table.channels call.call_id name)
    ⊎ ((res.how ≡ some Method.heuristic)
        × (candidates_of is_digit r call now r.table.channels ≡ name ∷ [])
        × (Dict.get call.call_id r.table.by_call_id ≡ none))

abbrev total : Stats → ℕ
total s = s.exact + s.heuristic + s.ambiguous + s.miss

pub record Decided (is_digit : ℕ → Bool) (call : Call) (now : ℕ) (r : ChannelResolver)
    (res : Resolution) (stats : Stats) : Type 0 where
  pub rests : Rests is_digit call now r res res.channel
  pub refused : res.ambiguous ≡ leb 2 (length res.candidates)
  pub doubtful : (res.ambiguous ≡ false) ⊎ (res.channel ≡ none)
  pub counted : total stats ≡ suc (total r.stats)

module _ (is_digit : ℕ → Bool) (call : Call) (now : ℕ) (r : ChannelResolver) where
  judge-Decided :
      (cands : List Text)
      → candidates_of is_digit r call now r.table.channels ≡ cands
      → Dict.get call.call_id r.table.by_call_id ≡ none
      → Decided is_digit call now r
          (judge is_digit cands r.stats).0
          (judge is_digit cands r.stats).1
  unfolding judge count_miss count_heuristic count_ambiguous
  judge-Decided [] e h = record {
    rests = tt;
    refused = refl;
    doubtful = inl refl;
    counted = omega arith;
  }
  judge-Decided (c ∷ []) e h = record {
    rests = inr (refl, e, h);
    refused = refl;
    doubtful = inl refl;
    counted = omega arith;
  }
  judge-Decided (c ∷ d ∷ cs) e h = record {
    rests = tt;
    refused = ground arith;
    doubtful = inr refl;
    counted = omega arith;
  }

  -- `fall_back` by whether the heuristic is allowed.
  abbrev fall_back_if : Bool → Resolution × Stats
  fall_back_if allowed =
      if allowed
      then judge is_digit (candidates_of is_digit r call now r.table.channels) r.stats
      else (
        record {
          channel = none;
          how = none;
          candidates = [];
          ambiguous = false;
          reason = Reason.no_carrier;
        },
        count_miss r.stats,
      )

  decide-Decided :
      IsLinked r.table
      → Decided is_digit call now r (decide is_digit r call now).0 (decide is_digit r call now).1
  unfolding decide fall_back count_miss count_exact
  decide-Decided l = elim (Option-cases (Dict.get call.call_id r.table.by_call_id)) [
    | inr (name, known) ↦
        rw (decide, known)
          (record {
            rests = inl (refl, l call.call_id name known);
            refused = refl;
            doubtful = inl refl;
            counted = omega arith;
          })
    | inl unknown ↦ rw (decide, unknown) (fall_back-Decided r.allow_heuristic unknown)
  ]
    where
      fall_back-Decided :
          (allowed : Bool)
          → Dict.get call.call_id r.table.by_call_id ≡ none
          → Decided is_digit call now r (fall_back_if allowed).0 (fall_back_if allowed).1
      fall_back-Decided true h =
          judge-Decided (candidates_of is_digit r call now r.table.channels) refl h
      fall_back-Decided false h = record {
        rests = tt;
        refused = refl;
        doubtful = inl refl;
        counted = omega arith;
      }

module _ (run : ℕ → Text → Option Text) (int_of : Text → Option ℕ) (is_digit : ℕ → Bool) where
  -- What a look-up leaves: the table true, at most 34 commands sent, none of them for a hangup, and the
  -- resolution, where there was no exception.
  pub record Resolved (call : Call) (now : ℕ) (r : ChannelResolver) (cli : Cli)
      (result : ChannelResolver × Cli × Option Resolution) : Type 0 where
    pub linked : IsLinked result.0.table
    pub commands : result.1.calls ≤ cli.calls + 34
    pub asked : hangups result.1.sent ≡ hangups cli.sent
    pub decided :
        Yields
          (λ res. Decided is_digit call now (with_table r result.0.table) res result.0.stats)
          result.2

  -- Where each Call-ID of the table leads to a listed channel that carries it, a look-up keeps that,
  -- sends at most 34 commands and none that asks for a hangup, also where it raises. Where it does not, a
  -- channel that it returns carries the Call-ID of the call, or is the only candidate for a Call-ID that
  -- the table lacks; several candidates are ambiguous and give no channel; and exactly one counter
  -- moves, by one.
  pub resolve-Resolved :
      (call : Call) (clock probed_at now : ℕ) (r : ChannelResolver) (cli : Cli)
      → IsLinked r.table
      → Resolved call now r cli (resolve run int_of is_digit call clock probed_at now r cli)
  unfolding resolve with_table with_stats
  resolve-Resolved call clock probed_at now r cli l =
      let (table, cli', raises) = look_up run int_of call.call_id clock probed_at r.table cli in
      let (l', (calls, same)) =
        look_up-Within run int_of call.call_id clock probed_at r.table cli l in
      let r' = with_table r table in
      let (resolution, stats) = decide is_digit r' call now in
      if_keeps (Resolved call now r cli) raises (r', cli', none)
        (with_stats r' stats, cli', some resolution)
        (record { linked = l'; commands = calls; asked = same; decided = tt })
        (record {
          linked = l';
          commands = calls;
          asked = same;
          decided = decide-Decided is_digit call now r' l';
        })
