-- ===== src/Actuator/Probe.antt =====
-- `ChannelTable.probe` and `probe_all` of phraseguard/actuator.py: reading SBC_CALLID off a channel.
use voip.Prelude.{
  ℕ, zero, suc, Bool, true, false, ◌&&◌, ◌||◌, not, List, [], ◌∷◌, ◌++◌, Option, none, some, leb,
  ◌==◌, if◌then◌else◌, Text, codes, same_text, member, Text-eq,
}
use voip.Prelude.Dict
use voip.Matcher.Normalize.{lower}
use voip.Metaphone.Loop.{is_empty}
use voip.Actuator.Lines.{strip, lstrip, split_on, starts_with}
use voip.Actuator.Cli.{Cli, rx}
use voip.Actuator.Channels.{Channel, ChannelTable, refresh, names_of}

-- MAX_PROBE_MISSES
abbrev pub max_probe_misses : ℕ
max_probe_misses = 4

-- [A-Za-z_] and [A-Za-z0-9_]
unfoldable pub name_start : ℕ → Bool
name_start c = (leb 65 c && leb c 90) || (leb 97 c && leb c 122) || c == 95

unfoldable pub name_char : ℕ → Bool
name_char c = name_start c || (leb 48 c && leb c 57)

-- The longest name, and what follows it.
unfoldable pub take_name : Text → Text × Text
take_name [] = ([], [])
take_name (c ∷ cs) =
    let (name, rest) = take_name cs in if name_char c then (c ∷ name, rest) else ([], c ∷ cs)

-- `= value` after the name
unfoldable pub take_value : Text → Option Text
take_value [] = none
take_value (c ∷ cs) = if c == 61 then some (strip cs) else none

-- _VAR_LINE.match(s) of a stripped line: the name and the value.
unfoldable pub variable_line : Text → Option (Text × Text)
variable_line [] = none
variable_line (c ∷ cs) =
    let (name, rest) = take_name (c ∷ cs) in
    if name_start c
    then elim (take_value (lstrip rest)) [ none ↦ none | some value ↦ some (name, value) ]
    else none

-- m.group(2) or None
unfoldable pub or_none : Text → Option Text
or_none [] = none
or_none (c ∷ cs) = some (c ∷ cs)

-- What a line of the Variables: block does: the Call-ID that ends the search, or `none`.
unfoldable pub call_id_line : Text → Option (Option Text)
call_id_line s =
    if is_empty s || starts_with (codes "-- ") s then none else elim (variable_line s) [
      | none ↦ none
      | some (name, value) ↦
          (if same_text name (codes "SBC_CALLID") then some (or_none value) else none)
    ]

-- The loop over the lines: the Call-ID of the channel, which stays `old` if no line sets it.
unfoldable pub find_call_id : Option Text → Bool → List Text → Option Text
find_call_id old in_vars [] = old
find_call_id old in_vars (raw ∷ lines) =
    let s = strip raw in
    if starts_with (codes "variables:") (lower s)
    then find_call_id old true lines
    else if in_vars
    then elim (call_id_line s) [ none ↦ find_call_id old in_vars lines | some id ↦ id ]
    else find_call_id old in_vars lines

unfoldable pub with_channel : Text → Channel → ChannelTable → ChannelTable
with_channel name ch table = record {
  list_ttl = table.list_ttl;
  channel_prefix = table.channel_prefix;
  endpoints = table.endpoints;
  channels = Dict.put name ch table.channels;
  by_call_id = table.by_call_id;
  last_list = table.last_list;
  probe_failures = table.probe_failures;
  layout_warning = table.layout_warning;
}

unfoldable pub with_call_id : Text → Text → ChannelTable → ChannelTable
with_call_id id name table = record {
  list_ttl = table.list_ttl;
  channel_prefix = table.channel_prefix;
  endpoints = table.endpoints;
  channels = table.channels;
  by_call_id = Dict.put id name table.by_call_id;
  last_list = table.last_list;
  probe_failures = table.probe_failures;
  layout_warning = table.layout_warning;
}

unfoldable pub count_failure : ChannelTable → ChannelTable
count_failure table = record {
  list_ttl = table.list_ttl;
  channel_prefix = table.channel_prefix;
  endpoints = table.endpoints;
  channels = table.channels;
  by_call_id = table.by_call_id;
  last_list = table.last_list;
  probe_failures = suc table.probe_failures;
  layout_warning = table.layout_warning;
}

unfoldable pub marked : Channel → Option Text → Bool → ℕ → Channel
marked ch id probed misses = record {
  name = ch.name;
  context = ch.context;
  exten = ch.exten;
  state = ch.state;
  cid_num = ch.cid_num;
  duration = ch.duration;
  uniqueid = ch.uniqueid;
  call_id = id;
  endpoint = ch.endpoint;
  probed = probed;
  probe_misses = misses;
}

-- The channel answered, and its Call-ID is `found`.
unfoldable pub settle : Text → Channel → Option Text → ChannelTable → ChannelTable
settle name ch (some (c ∷ id)) table =
    with_call_id (c ∷ id) name
      (with_channel name (marked ch (some (c ∷ id)) true ch.probe_misses) table)
settle name ch found table =
    let misses = suc ch.probe_misses in
    if leb max_probe_misses misses
    then count_failure (with_channel name (marked ch found true misses) table)
    else with_channel name (marked ch found ch.probed misses) table

-- What `probe` does with the output.
unfoldable pub read_answer : Text → Channel → Text → ChannelTable → ChannelTable
read_answer name ch [] table = table
read_answer name ch (c ∷ out) table =
    settle name ch (find_call_id ch.call_id false (split_on 10 (c ∷ out))) table

-- self.endpoints is not None and ch.endpoint not in self.endpoints
unfoldable pub is_foreign : ChannelTable → Channel → Bool
is_foreign table ch = elim table.endpoints [
  | none ↦ false
  | some ours ↦ elim ch.endpoint [ none ↦ true | some e ↦ not (member e ours) ]
]

-- limit and n >= limit
unfoldable pub at_limit : Option ℕ → ℕ → Bool
at_limit none n = false
at_limit (some zero) n = false
at_limit (some (suc l)) n = leb (suc l) n

module _ (run : ℕ → Text → Option Text) where
  -- A result `true` is an exception out of rx.
  unfoldable pub probe : Text → ChannelTable → Cli → ChannelTable × Cli × Bool
  probe name table cli = elim (Dict.get name table.channels) [
    | none ↦ (table, cli, false)
    | some ch ↦
        (if ch.probed
          then (table, cli, false)
          else elim (rx run cli (codes "core show channel " ++ name)) [
            | none ↦ (table, cli, true)
            | some (out, cli') ↦ (read_answer name ch out table, cli', false)
          ])
  ]

  -- The loop of probe_all: the names left, and the count so far; `none` in place of the count is an
  -- exception.
  unfoldable pub probe_each :
      Option ℕ → List Text → ℕ → ChannelTable → Cli → ChannelTable × Cli × Option ℕ
  probe_each limit [] n table cli = (table, cli, some n)
  probe_each limit (name ∷ names) n table cli = elim (Dict.get name table.channels) [
    | none ↦ probe_each limit names n table cli
    | some ch ↦
        (if ch.probed
          then probe_each limit names n table cli
          else if is_foreign table ch
          then probe_each limit names n
              (with_channel name (marked ch ch.call_id true ch.probe_misses) table) cli
          else (let (table', cli', raises) = probe name table cli in
              let rest = probe_each limit names (suc n) table' cli' in
              if raises
              then (table', cli', none)
              else if at_limit limit (suc n)
              then (table', cli', some (suc n))
              else rest))
  ]

unfoldable pub probe_all :
    (ℕ → Text → Option Text)
    → (Text → Option ℕ)
    → Option ℕ
    → ℕ
    → ChannelTable
    → Cli
    → ChannelTable × Cli × Option ℕ
probe_all run int_of limit now table cli =
    let (table', cli', raises) = refresh run int_of now false table cli in
    let probed = probe_each run limit (names_of table'.channels) 0 table' cli' in
    if raises then (table', cli', none) else probed
