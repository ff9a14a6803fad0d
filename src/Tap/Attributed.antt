-- ===== src/Tap/Attributed.antt =====
-- phraseguard/tap.py: RtpDemux.feed adds its stream to the call it finds, and keeps the tracker's calls
-- those of the customers.
use voip.Prelude.{
  ℕ, Bool, false, some, Text, Text-eq, ◌≡◌, refl, ap, ◌∙◌, inl, inr, Bool-cases, Option-cases,
  member,
}
use voip.Prelude.Dict
use voip.Metaphone.Loop.{is_empty}
use voip.Tap.G711.{Bytes}
use voip.Tap.Capture.{word32}
use voip.Tap.Sip.{Media-eq, StreamKey, CallInfo, SipTracker, call_for_media}
use voip.Tap.Rtp.{StreamKey-eq, Stream, RtpDemux, audio_of, counted, gc}
use voip.Tap.RtpFeed.{
  attribute, add_stream, attribute_stream, new_stream, hear, feed_stream, feed_audio, feed,
}
use voip.Tap.Tracked.{IsCustomerCall, IsTracker}
use voip.Tap.Gated.{feed_packet-keeps}

call_for_media-IsCustomerCall :
    (ip : Text) (port : ℕ) (t : SipTracker) (c : CallInfo)
    → IsTracker t
    → call_for_media ip port t ≡ some c
    → IsCustomerCall t.customer_ips (c.call_id, c)
unfolding call_for_media
call_for_media-IsCustomerCall ip port t c h e =
    elim (Option-cases (Dict.get (ip, port) t.by_media)) [
      | inl missing ↦ absurd (cc (rw (call_for_media, missing) at e))
      | inr (cid, owner) ↦ elim (Bool-cases (is_empty cid)) [
        | inl blank ↦ absurd (cc (rw (call_for_media, owner, blank) at e))
        | inr named ↦
            let found = rw (call_for_media, owner, named) at e in
            let hc = Dict.get-All (IsCustomerCall t.customer_ips) cid c t.calls found h in
            (refl, hc.1, hc.2)
      ]
    ]

attribute-IsCustomerCall :
    (key : StreamKey) (t : SipTracker) (c : CallInfo)
    → IsTracker t
    → attribute key t ≡ some c
    → IsCustomerCall t.customer_ips (c.call_id, c)
unfolding attribute
attribute-IsCustomerCall key t c h e = elim (Option-cases (call_for_media key.dst key.dport t)) [
  | inl missing ↦
      call_for_media-IsCustomerCall key.src key.sport t c h (rw (attribute, missing) at e)
  | inr (c', found) ↦
      let same : c' ≡ c = cc (rw (attribute, found) at e) in
      call_for_media-IsCustomerCall key.dst key.dport t c h (found ∙ ap some same)
]

add_stream-IsTracker :
    (key : StreamKey) (c : CallInfo) (t : SipTracker)
    → IsCustomerCall t.customer_ips (c.call_id, c)
    → IsTracker t
    → IsTracker (add_stream key c t)
unfolding add_stream
add_stream-IsTracker key c t hc h =
    Dict.put-All (IsCustomerCall t.customer_ips) c.call_id _ t.calls hc h

module _ {Float : Type 0} where
  attribute_stream-IsTracker :
      (s : Stream Float) (t : SipTracker) (d : RtpDemux Float)
      → IsTracker t
      → IsTracker (attribute_stream s t d).1
  unfolding attribute_stream
  attribute_stream-IsTracker s t d h = elim (Option-cases s.call_id) [
    | inr (cid, known) ↦ rw (attribute_stream, known) h
    | inl unknown ↦ elim (Option-cases (attribute s.key t)) [
      | inl missing ↦ rw (attribute_stream, unknown, missing) h
      | inr (c, found) ↦
          rw (attribute_stream, unknown, found)
            (add_stream-IsTracker s.key c t (attribute-IsCustomerCall s.key t c h found) h)
    ]
  ]

  module _ (rms : ℕ → ℕ → Float) (seconds : ℕ → Float) (plus : Float → Float → Float)
      (leb_float : Float → Float → Bool) (ltb_float : Float → Float → Bool)
      (zero_float : Float) where
    hear-IsTracker :
        (ts : ℕ) (audio : Bytes) (s : Stream Float) (t : SipTracker) (d : RtpDemux Float)
        → IsTracker t
        → IsTracker (hear rms seconds plus leb_float ltb_float zero_float ts audio s t d).1
    unfolding hear
    hear-IsTracker ts audio s t d h = attribute_stream-IsTracker s t d h

    feed_stream-IsTracker :
        (ts : ℕ) (key : StreamKey) (is_alaw : Bool) (audio : Bytes) (t : SipTracker)
        (d : RtpDemux Float)
        → IsTracker t
        → IsTracker
            (feed_stream rms seconds plus leb_float ltb_float zero_float ts key is_alaw audio t d).1
    unfolding feed_stream
    feed_stream-IsTracker ts key is_alaw audio t d h =
        elim (Option-cases (Dict.get key d.streams)) [
          | inl fresh ↦
              rw (feed_stream, fresh)
                (hear-IsTracker ts audio
                  (new_stream rms seconds plus leb_float ltb_float zero_float key ts is_alaw) t
                  (counted "streams_customer" d) h)
          | inr (s, known) ↦ rw (feed_stream, known) (hear-IsTracker ts audio s t d h)
        ]

    feed_audio-IsTracker :
        (ts : ℕ) (key : StreamKey) (is_alaw : Bool) (payload : Bytes) (t : SipTracker)
        (d : RtpDemux Float)
        → IsTracker t
        → IsTracker
            (feed_audio rms seconds plus leb_float ltb_float zero_float ts key is_alaw payload t
              d).1
    unfolding feed_audio
    feed_audio-IsTracker ts key is_alaw payload t d h =
        elim (Bool-cases (member key.src d.media_ips)) [
          | inr other ↦ rw (feed_audio, other) h
          | inl ours ↦ elim (Option-cases (audio_of payload)) [
            | inl silent ↦ rw (feed_audio, ours, silent) h
            | inr (audio, spoken) ↦
                rw (feed_audio, ours, spoken) (feed_stream-IsTracker ts key is_alaw audio t d h)
          ]
        ]

    -- Keeping the calls of the tracker.
    pub feed-IsTracker :
        (ts : ℕ) (src : Text) (sport : ℕ) (dst : Text) (dport : ℕ) (payload : Bytes)
        (t : SipTracker) (d : RtpDemux Float)
        → IsTracker t
        → IsTracker
            (feed rms seconds plus leb_float ltb_float zero_float ts src sport dst dport payload t
              d).1
    unfolding feed
    feed-IsTracker ts src sport dst dport payload t d h =
        let key : StreamKey = record {
          src = src;
          sport = sport;
          dst = dst;
          dport = dport;
          ssrc = word32 false payload 8;
        } in
        feed_packet-keeps rms seconds plus leb_float ltb_float zero_float (λ r. IsTracker r.1) ts
          key payload t (gc ts d) h (λ name. h)
          (feed_audio-IsTracker ts key _ payload t (gc ts d) h)
