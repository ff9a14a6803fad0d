-- ===== src/Actuator/Channels.antt =====
-- `Channel` and `ChannelTable` of phraseguard/actuator.py. Parameters are the subprocess and
-- Python's int(text), `none` where it raises; the clock is an argument.
use voip.Prelude.{
  ℕ, ◌+◌, Bool, true, false, ◌&&◌, ◌||◌, not, List, [], ◌∷◌, Option, none, some, ltb, if◌then◌else◌,
  length, get_or, drop, Text, codes, same_text, member, Text-eq,
}
use voip.Prelude.Dict
use voip.Metaphone.Loop.{is_empty}
use voip.Actuator.Lines.{strip, split_on, starts_with, has_char, before_last}
use voip.Actuator.Cli.{Cli, rx}

pub record Channel : Type 0 where
  pub name : Text
  pub context : Text
  pub exten : Text
  pub state : Text
  pub cid_num : Text
  pub duration : ℕ
  pub uniqueid : Text
  pub call_id : Option Text
  pub endpoint : Option Text
  pub probed : Bool
  pub probe_misses : ℕ

-- Channel(name)
unfoldable pub new_channel : Text → Channel
new_channel name = record {
  name = name;
  context = [];
  exten = [];
  state = [];
  cid_num = [];
  duration = 0;
  uniqueid = [];
  call_id = none;
  endpoint = none;
  probed = false;
  probe_misses = 0;
}

abbrev pub concise_fields : ℕ
concise_fields = 14

pub record ChannelTable : Type 0 where
  pub list_ttl : ℕ
  pub channel_prefix : Text
  pub endpoints : Option (List Text)
  pub channels : List (Text × Channel)
  pub by_call_id : List (Text × Text)
  pub last_list : ℕ
  pub probe_failures : ℕ
  -- The number of fields of the line that the layout warning is about.
  pub layout_warning : Option ℕ

-- f[i]
unfoldable pub field : List Text → ℕ → Text
field f i = get_or f i []

-- "x or y" on an optional first value
unfoldable pub or_some {ℓ} : {A : Type ℓ} → Option A → A → Option A
or_some none a = some a
or_some (some b) a = some b

unfoldable pub endpoint_of : Text → Text → Text
endpoint_of prefix name =
    let body = drop (length prefix) name in if has_char 45 body then before_last 45 body else body

-- int(f[F_DURATION] or 0), and 0 where int raises
unfoldable pub read_duration : (Text → Option ℕ) → Text → ℕ
read_duration int_of [] = 0
read_duration int_of (c ∷ cs) = elim (int_of (c ∷ cs)) [ none ↦ 0 | some n ↦ n ]

unfoldable pub update_channel : (Text → Option ℕ) → Text → List Text → Channel → Channel
update_channel int_of prefix f ch = record {
  name = ch.name;
  context = field f 1;
  exten = field f 2;
  state = field f 4;
  cid_num = field f 7;
  duration = read_duration int_of (field f 11);
  uniqueid = field f 13;
  call_id = ch.call_id;
  endpoint = some (endpoint_of prefix (field f 0));
  probed = ch.probed;
  probe_misses = ch.probe_misses;
}

unfoldable pub channel_or_new : List (Text × Channel) → Text → Channel
channel_or_new channels name = elim (Dict.get name channels) [
  | none ↦ new_channel name
  | some ch ↦ ch
]

-- The table, and the names seen so far.
unfoldable pub read_fields :
    (Text → Option ℕ) → List Text → ChannelTable × List Text → ChannelTable × List Text
read_fields int_of f (table, seen) =
    if ltb (length f) concise_fields
    then (
      record {
        list_ttl = table.list_ttl;
        channel_prefix = table.channel_prefix;
        endpoints = table.endpoints;
        channels = table.channels;
        by_call_id = table.by_call_id;
        last_list = table.last_list;
        probe_failures = table.probe_failures;
        layout_warning = or_some table.layout_warning (length f);
      },
      seen,
    )
    else if starts_with table.channel_prefix (field f 0)
    then (
      record {
        list_ttl = table.list_ttl;
        channel_prefix = table.channel_prefix;
        endpoints = table.endpoints;
        channels =
            Dict.put (field f 0)
              (update_channel int_of table.channel_prefix f
                (channel_or_new table.channels (field f 0)))
              table.channels;
        by_call_id = table.by_call_id;
        last_list = table.last_list;
        probe_failures = table.probe_failures;
        layout_warning = table.layout_warning;
      },
      field f 0 ∷ seen,
    )
    else (table, seen)

unfoldable pub read_line :
    (Text → Option ℕ) → Text → ChannelTable × List Text → ChannelTable × List Text
read_line int_of raw state =
    let line = strip raw in
    if is_empty line || not (has_char 33 line)
    then state
    else read_fields int_of (split_on 33 line) state

unfoldable pub read_lines :
    (Text → Option ℕ) → List Text → ChannelTable × List Text → ChannelTable × List Text
read_lines int_of [] state = state
read_lines int_of (line ∷ lines) state = read_lines int_of lines (read_line int_of line state)

-- if ch.call_id and by_call_id.get(ch.call_id) == name: by_call_id.pop(ch.call_id, None)
unfoldable pub forget_id : Option Text → Text → List (Text × Text) → List (Text × Text)
forget_id none name ids = ids
forget_id (some []) name ids = ids
forget_id (some (c ∷ id)) name ids = elim (Dict.get (c ∷ id) ids) [
  | none ↦ ids
  | some n ↦ (if same_text n name then Dict.erase (c ∷ id) ids else ids)
]

unfoldable pub names_of : List (Text × Channel) → List Text
names_of [] = []
names_of ((name, ch) ∷ channels) = name ∷ names_of channels

-- ch = self.channels.pop(name), and its Call-ID goes too.
unfoldable pub drop_name :
    Text → List (Text × Channel) × List (Text × Text) → List (Text × Channel) × List (Text × Text)
drop_name name (channels, ids) = elim (Dict.get name channels) [
  | none ↦ (channels, ids)
  | some ch ↦ (Dict.erase name channels, forget_id ch.call_id name ids)
]

-- for name in [n for n in self.channels if n not in seen]
unfoldable pub drop_unseen :
    List Text
    → List Text
    → List (Text × Channel) × List (Text × Text)
    → List (Text × Channel) × List (Text × Text)
drop_unseen seen [] state = state
drop_unseen seen (name ∷ names) state =
    drop_unseen seen names (if member name seen then state else drop_name name state)

unfoldable pub sweep : ChannelTable × List Text → ChannelTable
sweep (table, seen) =
    let (channels, ids) =
      drop_unseen seen (names_of table.channels) (table.channels, table.by_call_id) in
    record {
      list_ttl = table.list_ttl;
      channel_prefix = table.channel_prefix;
      endpoints = table.endpoints;
      channels = channels;
      by_call_id = ids;
      last_list = table.last_list;
      probe_failures = table.probe_failures;
      layout_warning = table.layout_warning;
    }

unfoldable pub listed_at : ℕ → ChannelTable → ChannelTable
listed_at now table = record {
  list_ttl = table.list_ttl;
  channel_prefix = table.channel_prefix;
  endpoints = table.endpoints;
  channels = table.channels;
  by_call_id = table.by_call_id;
  last_list = now;
  probe_failures = table.probe_failures;
  layout_warning = table.layout_warning;
}

module _ (run : ℕ → Text → Option Text) (int_of : Text → Option ℕ) where
  -- A result `true` is an exception out of rx.
  unfoldable pub refresh : ℕ → Bool → ChannelTable → Cli → ChannelTable × Cli × Bool
  refresh now force table cli =
      if not force && ltb now (table.last_list + table.list_ttl)
      then (table, cli, false)
      else elim (rx run cli (codes "core show channels concise")) [
        | none ↦ (listed_at now table, cli, true)
        | some (out, cli') ↦
            (sweep (read_lines int_of (split_on 10 out) (listed_at now table, [])), cli', false)
      ]
