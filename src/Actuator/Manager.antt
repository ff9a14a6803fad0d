-- ===== src/Actuator/Manager.antt =====
-- `probe_ami` and `endpoint_map` of phraseguard/actuator.py. The text of the file is a parameter,
-- `none` where it cannot be read; the notes, which are texts for the reader, are left out.
use voip.Prelude.{
  ℕ, suc, ◌+◌, Bool, true, false, ◌&&◌, List, [], ◌∷◌, ◌++◌, Option, none, some, ◌==◌,
  if◌then◌else◌, Text, codes, same_text, member, Text-eq,
}
use voip.Prelude.Dict
use voip.Matcher.Normalize.{lower}
use voip.Metaphone.Loop.{is_empty}
use voip.Actuator.Lines.{strip, split_on, starts_with, has_char}

pub record AmiInfo : Type 0 where
  pub readable : Bool
  pub enabled : Option Bool
  pub webenabled : Option Bool
  pub bindaddr : Option Text
  pub port : Option Text
  pub users : List Text

abbrev pub unread : AmiInfo
unread = record {
  readable = false;
  enabled = none;
  webenabled = none;
  bindaddr = none;
  port = none;
  users = [];
}

-- line.split(sep, 1)[0] and what follows the separator
unfoldable pub cut_at : ℕ → Text → Text × Text
cut_at sep [] = ([], [])
cut_at sep (c ∷ cs) =
    let (first, rest) = cut_at sep cs in if c == sep then ([], cs) else (c ∷ first, rest)

-- v in ("yes", "true", "on", "1")
unfoldable pub is_yes : Text → Bool
is_yes v = member v (codes "yes" ∷ codes "true" ∷ codes "on" ∷ codes "1" ∷ [])

unfoldable pub set_option : Text → Text → AmiInfo → AmiInfo
set_option k v info =
    if same_text k (codes "enabled")
    then record {
      readable = info.readable;
      enabled = some (is_yes v);
      webenabled = info.webenabled;
      bindaddr = info.bindaddr;
      port = info.port;
      users = info.users;
    }
    else if same_text k (codes "webenabled")
    then record {
      readable = info.readable;
      enabled = info.enabled;
      webenabled = some (is_yes v);
      bindaddr = info.bindaddr;
      port = info.port;
      users = info.users;
    }
    else if same_text k (codes "bindaddr")
    then record {
      readable = info.readable;
      enabled = info.enabled;
      webenabled = info.webenabled;
      bindaddr = some v;
      port = info.port;
      users = info.users;
    }
    else if same_text k (codes "port")
    then record {
      readable = info.readable;
      enabled = info.enabled;
      webenabled = info.webenabled;
      bindaddr = info.bindaddr;
      port = some v;
      users = info.users;
    }
    else info

unfoldable pub add_user : Text → AmiInfo → AmiInfo
add_user section info = record {
  readable = info.readable;
  enabled = info.enabled;
  webenabled = info.webenabled;
  bindaddr = info.bindaddr;
  port = info.port;
  users = info.users ++ (section ∷ []);
}

-- line.endswith("]")
unfoldable pub ends_bracket : Text → Bool
ends_bracket [] = false
ends_bracket (c ∷ []) = c == 93
ends_bracket (c ∷ d ∷ cs) = ends_bracket (d ∷ cs)

-- line[1:-1]
unfoldable pub but_last : Text → Text
but_last [] = []
but_last (c ∷ []) = []
but_last (c ∷ d ∷ cs) = c ∷ but_last (d ∷ cs)

unfoldable pub inner : Text → Text
inner [] = []
inner (c ∷ cs) = but_last cs

-- A line that is neither blank nor a section, in its section.
unfoldable pub read_option : Option Text → Text → AmiInfo → AmiInfo
read_option none line info = info
read_option (some section) line info =
    let (k, v) = cut_at 61 line in
    if has_char 61 line && same_text section (codes "general")
    then set_option (lower (strip k)) (lower (strip v)) info
    else info

-- for raw in text.split("\n")
unfoldable pub read_conf : Option Text → List Text → AmiInfo → AmiInfo
read_conf section [] info = info
read_conf section (raw ∷ lines) info =
    let (before, comment) = cut_at 59 raw in
    let line = strip before in
    if is_empty line
    then read_conf section lines info
    else if starts_with (codes "[") line && ends_bracket line
    then (let name = strip (inner line) in
        read_conf (some name) lines
          (if same_text name (codes "general") then info else add_user name info))
    else read_conf section lines (read_option section line info)

unfoldable pub probe_ami : Option Text → AmiInfo
probe_ami none = unread
probe_ami (some text) = read_conf none (split_on 10 text) (record {
  readable = true;
  enabled = none;
  webenabled = none;
  bindaddr = none;
  port = none;
  users = [];
})

-- "pkclient%d" % n, where `decimal` writes a number in decimal.
unfoldable pub pkclient : (ℕ → Text) → ℕ → Text
pkclient decimal n = codes "pkclient" ++ decimal n

-- {ip: "pkclient%d" % (i + 1) for i, ip in enumerate(pk_client_ips)}, from position `i`
unfoldable pub endpoint_map_from :
    (ℕ → Text) → ℕ → List Text → List (Text × Text) → List (Text × Text)
endpoint_map_from decimal i [] known = known
endpoint_map_from decimal i (ip ∷ ips) known =
    endpoint_map_from decimal (suc i) ips (Dict.put ip (pkclient decimal (i + 1)) known)

unfoldable pub endpoint_map : (ℕ → Text) → List Text → List (Text × Text)
endpoint_map decimal ips = endpoint_map_from decimal 0 ips []
