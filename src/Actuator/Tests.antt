-- ===== src/Actuator/Tests.antt =====
-- The actuator at concrete inputs: a subprocess that answers nothing.
use voip.Prelude.{
  ℕ, ◌≡◌, refl, Bool, true, false, [], ◌∷◌, Option, none, some, arith, sym, ap, inl, inr,
  Bool-cases, same_text, same_text-eq, member, Text, codes, Text-eq,
}
use voip.Prelude.Dict
use voip.Metaphone.Loop.{is_empty}
use voip.Actuator.Lines.{strip, lstrip, rstrip, is_space, split_on, pieces, starts_with, has_char}
use voip.Matcher.Normalize.{lower, lower_char}
use voip.Actuator.Manager.{
  probe_ami, read_conf, read_option, set_option, add_user, cut_at, is_yes, ends_bracket, but_last,
  inner,
}
use voip.Actuator.Cli.{Cli}
use voip.Actuator.Channels.{Channel, ChannelTable, refresh}
use voip.Actuator.Live.{IsLinked, refresh-IsLinked}
use voip.Actuator.Resolver.{Resolution, Method, Reason, Call, ChannelResolver, resolve}
use voip.Actuator.Resolved.{Resolved, resolve-Resolved}
use voip.Actuator.Hangup.{Hangup, execute}
use voip.Actuator.Hangup.Gate.{Gated, execute-Gated}

abbrev pub silent : ℕ → Text → Option Text
silent n command = some []

abbrev pub fresh : Cli
fresh = record { calls = 0; errors = 0; sent = [] }

abbrev customer_leg : Resolution
customer_leg = record {
  channel = some (codes "PJSIP/pkclient2-000027a1");
  how = some Method.callid;
  candidates = codes "PJSIP/pkclient2-000027a1" ∷ [];
  ambiguous = false;
  reason = Reason.callid_matched;
}

abbrev pub enforcing : Hangup
enforcing = record { enforce = true; attempted = 0; executed = 0; refused = 0; failed = 0 }

execute-Gated_example :
    Gated silent customer_leg enforcing fresh (execute silent customer_leg enforcing fresh)
execute-Gated_example = execute-Gated silent customer_leg enforcing fresh

abbrev listed_channel : Channel
listed_channel = record {
  name = codes "PJSIP/pkclient2-1";
  context = [];
  exten = codes "18005550100";
  state = codes "Up";
  cid_num = [];
  duration = 4;
  uniqueid = codes "1.1";
  call_id = some (codes "abc@host");
  endpoint = some (codes "pkclient2");
  probed = true;
  probe_misses = 0;
}

abbrev one_call : ChannelTable
one_call = record {
  list_ttl = 1;
  channel_prefix = codes "PJSIP/";
  endpoints = none;
  channels = (codes "PJSIP/pkclient2-1", listed_channel) ∷ [];
  by_call_id = (codes "abc@host", codes "PJSIP/pkclient2-1") ∷ [];
  last_list = 10;
  probe_failures = 0;
  layout_warning = none;
}

abbrev pub resolver : ChannelResolver
resolver = record {
  table = one_call;
  endpoint_for_ip = (codes "192.0.2.7", codes "pkclient2") ∷ [];
  allow_heuristic = true;
  age_tolerance = 8;
  stats = record { exact = 0; heuristic = 0; ambiguous = 0; miss = 0 };
}

abbrev call : Call
call = record {
  call_id = codes "abc@host";
  customer_ip = codes "192.0.2.7";
  dnis = codes "18005550100";
  started = 7;
}

abbrev pub int_of : Text → Option ℕ
int_of s = none

abbrev pub is_digit : ℕ → Bool
is_digit c = true

listed_under :
    (name : Text)
    → some (codes "PJSIP/pkclient2-1") ≡ some name
    → Dict.get name one_call.channels ≡ some listed_channel
unfolding Dict.get same_text
listed_under name e =
    let same : codes "PJSIP/pkclient2-1" ≡ name = cc in
    ap (λ x. Dict.get x one_call.channels) (sym same)

pub one_call-IsLinked : IsLinked one_call
unfolding Dict.get is_empty
one_call-IsLinked id name h = elim (Bool-cases (same_text (codes "abc@host") id)) [
  | inr other ↦ absurd (ground (arith, h, other))
  | inl same ↦
      let e = same_text-eq (codes "abc@host") id same in
      let named : some (codes "PJSIP/pkclient2-1") ≡ some name = ground (arith, h, same) in
      record {
        ch = listed_channel;
        listed = listed_under name named;
        carried = ap some e;
        was_probed = refl;
        nonempty = ap is_empty (sym e);
      }
]

resolve-Resolved_example :
    Resolved silent int_of is_digit call 10 resolver fresh
      (resolve silent int_of is_digit call 10 10 10 resolver fresh)
resolve-Resolved_example =
    resolve-Resolved silent int_of is_digit call 10 10 10 resolver fresh one_call-IsLinked

refresh-IsLinked_example : IsLinked (refresh silent int_of 99 true one_call fresh).0
refresh-IsLinked_example = refresh-IsLinked silent int_of 99 true one_call fresh one_call-IsLinked

disabled : probe_ami (some (codes "[general]\nEnabled = No ; off\n[ops]\nsecret=x")) ≡ record {
  readable = true;
  enabled = some false;
  webenabled = none;
  bindaddr = none;
  port = none;
  users = codes "ops" ∷ [];
}
unfolding probe_ami read_conf read_option set_option add_user cut_at is_yes ends_bracket but_last
    inner strip lstrip rstrip is_space split_on pieces starts_with has_char lower lower_char
    is_empty same_text member
disabled = refl
