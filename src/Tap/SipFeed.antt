-- ===== src/Tap/SipFeed.antt =====
-- phraseguard/tap.py: SipTracker.feed, one SIP datagram.
-- The decoding of UTF-8, str.isdigit and int are parameters; int is `none` where it raises.
use voip.Prelude.{
  ℕ, Bool, true, false, ◌&&◌, ◌||◌, not, [], ◌∷◌, Option, none, some, ltb, leb, ◌==◌, if◌then◌else◌,
  Text, codes, same_text, Text-eq, member, String,
}
use voip.Prelude.Dict
use voip.Metaphone.Loop.{is_empty}
use voip.Actuator.Lines.{strip, starts_with, has_char}
use voip.Tap.G711.{Bytes}
use voip.Tap.SipText.{
  upper, before_first, after_first, has_text, words, header, user, number_after, sdp_audio, body_of,
}
use voip.Tap.Sip.{
  Media, Media-eq, CallInfo, new_call, SipTracker, with_calls, with_media, count_not_customer,
  count_orphan, count_seen, count_ended, gc,
}

-- What feed read of a message of a customer.
pub record Message : Type 0 where
  pub text : Text
  pub call_id : Text
  pub first : Text
  pub method : Option Text
  pub code : Option ℕ
  pub from_customer : Bool

-- The call that feed returns, `nothing` for None, or an exception.
pub data Reply : Type 0 where
  nothing : Reply
  touched : CallInfo → Reply
  raised : Reply

-- method == name
unfoldable pub is_method : String → Option Text → Bool
unfolding same_text
is_method name none = false
is_method name (some m) = same_text m (codes name)

unfoldable pub or_else : Option Text → Option Text → Option Text
or_else none b = b
or_else (some a) b = some a

-- What an INVITE says of a call that has not had one.
unfoldable pub identify : Text → Text → Message → CallInfo → CallInfo
unfolding is_method or_else
identify src dst m c =
    let target = if has_char 32 m.first then before_first 32 (after_first 32 m.first) else [] in
    if is_method "INVITE" m.method && not c.invite_seen
    then record {
      call_id = c.call_id;
      customer_ip = some (if m.from_customer then src else dst);
      ani = user (header m.text (codes "From"));
      dnis = or_else (user (some target)) (user (header m.text (codes "To")));
      started = c.started;
      answered = c.answered;
      ended = c.ended;
      customer_media = c.customer_media;
      sbc_media = c.sbc_media;
      invite_seen = true;
      streams = c.streams;
    }
    else c

unfoldable pub set_media : Bool → Media → CallInfo → CallInfo
set_media from_customer key c = record {
  call_id = c.call_id;
  customer_ip = c.customer_ip;
  ani = c.ani;
  dnis = c.dnis;
  started = c.started;
  answered = c.answered;
  ended = c.ended;
  customer_media = if from_customer then some key else c.customer_media;
  sbc_media = if from_customer then c.sbc_media else some key;
  invite_seen = c.invite_seen;
  streams = c.streams;
}

unfoldable pub is_none {ℓ} : {A : Type ℓ} → Option A → Bool
is_none none = true
is_none (some a) = false

-- call.answered = ts
unfoldable pub answer : ℕ → CallInfo → CallInfo
answer ts c = record {
  call_id = c.call_id;
  customer_ip = c.customer_ip;
  ani = c.ani;
  dnis = c.dnis;
  started = c.started;
  answered = some ts;
  ended = c.ended;
  customer_media = c.customer_media;
  sbc_media = c.sbc_media;
  invite_seen = c.invite_seen;
  streams = c.streams;
}

-- call.ended = ts
unfoldable pub end_call : ℕ → CallInfo → CallInfo
end_call ts c = record {
  call_id = c.call_id;
  customer_ip = c.customer_ip;
  ani = c.ani;
  dnis = c.dnis;
  started = c.started;
  answered = c.answered;
  ended = some ts;
  customer_media = c.customer_media;
  sbc_media = c.sbc_media;
  invite_seen = c.invite_seen;
  streams = c.streams;
}

-- code == 200
unfoldable pub is_ok : Option ℕ → Bool
is_ok none = false
is_ok (some n) = n == 200

-- code and 400 <= code < 700
unfoldable pub is_failure : Option ℕ → Bool
is_failure none = false
is_failure (some n) = leb 400 n && ltb n 700

unfoldable pub put_call : Text → CallInfo → SipTracker → SipTracker
unfolding Dict.put
put_call cid c t = with_calls (Dict.put cid c t.calls) t

-- The steps of feed behind the body of the message.
unfoldable pub finish : ℕ → Message → CallInfo → SipTracker → SipTracker × Reply
unfolding put_call answer end_call is_ok is_failure is_none is_method
finish ts m c t =
    let answers = is_ok m.code && (is_none c.answered && c.invite_seen) in
    let c' = if answers then answer ts c else c in
    let ends = (is_method "BYE" m.method || is_failure m.code) && is_none c'.ended in
    if ends
    then (gc ts (count_ended (put_call m.call_id (end_call ts c') t)), touched (end_call ts c'))
    else (gc ts (put_call m.call_id c' t), touched c')

-- `src if ip is None`
unfoldable pub media_key : Text → Option Text × ℕ → Media
media_key src (none, port) = (src, port)
media_key src (some ip, port) = (ip, port)

abbrev pub message_of : Text → Text → Text → Bool → Option ℕ → Bool → Message
message_of text call_id first is_request code from_customer = record {
  text = text;
  call_id = call_id;
  first = first;
  method = if is_request then some (upper (before_first 32 first)) else none;
  code = code;
  from_customer = from_customer;
}

-- The guard on the text.
unfoldable pub may_have_id : Text → Bool
unfolding has_text
may_have_id text =
    has_text (codes "Call-ID") text
    || has_text (10 ∷ codes "i:") text
    || starts_with (codes "i:") text

module _ (is_digit : Text → Bool) (to_int : Text → Option ℕ) where
  -- The steps from the body on. Where int raises, the call keeps what the INVITE said of it.
  unfoldable pub read_body : ℕ → Text → Message → CallInfo → SipTracker → SipTracker × Reply
  unfolding finish media_key set_media put_call Dict.put body_of has_text
  read_body ts src m c t =
      if has_text (codes "m=audio") (body_of m.text)
      then elim (sdp_audio is_digit to_int (body_of m.text)) [
        | none ↦ (put_call m.call_id c t, raised)
        | some none ↦ finish ts m c t
        | some (some media) ↦
            let key = media_key src media in
            finish ts m (set_media m.from_customer key c)
              (with_media (Dict.put key m.call_id t.by_media) t)
      ]
      else finish ts m c t

  -- The steps on a message of a customer.
  unfoldable pub handle : ℕ → Text → Text → Message → SipTracker → SipTracker × Reply
  unfolding read_body identify is_method Dict.get
  handle ts src dst m t = elim (Dict.get m.call_id t.calls) [
    | some c ↦ read_body ts src m (identify src dst m c) t
    | none ↦
        (if is_method "INVITE" m.method
          then read_body ts src m (identify src dst m (new_call m.call_id ts)) (count_seen t)
          else (count_orphan t, nothing))
  ]

  -- The code of a status line: the outer `none` is an exception.
  unfoldable pub status_code : Bool → Text → Option (Option ℕ)
  unfolding number_after
  status_code is_request first =
      if is_request then some none else number_after is_digit to_int (words first) none

  unfoldable pub feed_call : ℕ → Text → Text → Text → Text → SipTracker → SipTracker × Reply
  unfolding handle status_code member
  feed_call ts src dst text call_id t =
      let first = strip (before_first 10 text) in
      let is_request = not (starts_with (codes "SIP/2.0") first) in
      let from_customer = member src t.customer_ips in
      let to_customer = member dst t.customer_ips in
      elim (status_code is_request first) [
        | none ↦ (t, raised)
        | some code ↦
            (if not (from_customer || to_customer)
              then (count_not_customer t, nothing)
              else handle ts src dst (message_of text call_id first is_request code from_customer)
                  t)
      ]

  -- feed; a reply `raised` is an exception out of it.
  unfoldable pub feed : (Bytes → Text) → ℕ → Text → Text → Bytes → SipTracker → SipTracker × Reply
  unfolding feed_call may_have_id
  feed decode ts src dst payload t =
      let text = decode payload in
      if may_have_id text
      then elim (header text (codes "Call-ID")) [
        | none ↦ (t, nothing)
        | some call_id ↦
            (if is_empty call_id then (t, nothing) else feed_call ts src dst text call_id t)
      ]
      else (t, nothing)
