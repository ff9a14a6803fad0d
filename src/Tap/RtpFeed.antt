-- ===== src/Tap/RtpFeed.antt =====
-- phraseguard/tap.py: RtpDemux.feed, one RTP datagram.
-- Floats are a parameter: the root of a sum of squares over a length, the seconds of so many
-- samples, the sum and the order of floats.
use Prim.Native.Nat.{bit_and}
use voip.Prelude.{
  ℕ, ◌+◌, ◌-◌, ◌/◌, Bool, true, false, ◌&&◌, ◌||◌, not, [], ◌++◌, Option, none, some, ltb, leb,
  ◌==◌, if◌then◌else◌, Text, Text-eq, member, set_add, length, drop,
}
use voip.Prelude.Dict
use voip.Tap.G711.{Bytes, decode_g711, square_sum}
use voip.Tap.Capture.{byte, word32}
use voip.Tap.Sip.{StreamKey, CallInfo, SipTracker, with_calls, call_for_media}
use voip.Tap.Rtp.{
  StreamKey-eq, Stream, RtpDemux, bump, audio_of, with_streams, with_stats, counted, count_source,
  gc,
}

-- call.streams.add(key), on the call that the tracker holds under its id.
unfoldable pub add_stream : StreamKey → CallInfo → SipTracker → SipTracker
unfolding Dict.put set_add member
add_stream key c t =
    with_calls
      (Dict.put c.call_id
        record {
          call_id = c.call_id;
          customer_ip = c.customer_ip;
          ani = c.ani;
          dnis = c.dnis;
          started = c.started;
          answered = c.answered;
          ended = c.ended;
          customer_media = c.customer_media;
          sbc_media = c.sbc_media;
          invite_seen = c.invite_seen;
          streams = set_add key c.streams;
        }
        t.calls)
      t

-- The call at the destination, or else at the source.
unfoldable pub attribute : StreamKey → SipTracker → Option CallInfo
unfolding call_for_media
attribute key t = elim (call_for_media key.dst key.dport t) [
  | none ↦ call_for_media key.src key.sport t
  | some c ↦ some c
]

module _ {Float : Type 0} where
  unfoldable pub attributed : Text → Stream Float → Stream Float
  attributed call_id s = record {
    key = s.key;
    call_id = some call_id;
    codec_alaw = s.codec_alaw;
    packets = s.packets;
    first_ts = s.first_ts;
    last_ts = s.last_ts;
    voiced_packets = s.voiced_packets;
    voiced_seconds = s.voiced_seconds;
    gate_open = s.gate_open;
    pcm = s.pcm;
    pcm_dropped = s.pcm_dropped;
    rms_sum = s.rms_sum;
    rms_n = s.rms_n;
  }

  -- The attribution, tried again until it succeeds.
  unfoldable pub attribute_stream :
      Stream Float → SipTracker → RtpDemux Float → Stream Float × SipTracker × RtpDemux Float
  unfolding attribute attributed add_stream
  attribute_stream s t d = elim s.call_id [
    | some _ ↦ (s, t, d)
    | none ↦ elim (attribute s.key t) [
      | some c ↦ (attributed c.call_id s, add_stream s.key c t, counted "streams_attributed" d)
      | none ↦ (s, t, if s.packets == 0 then counted "streams_unattributed" d else d)
    ]
  ]

  -- st.gate_open = True, and the audio in the ring with what was dropped of it.
  unfoldable pub buffered : Bytes → ℕ → Stream Float → Stream Float
  buffered pcm dropped s = record {
    key = s.key;
    call_id = s.call_id;
    codec_alaw = s.codec_alaw;
    packets = s.packets;
    first_ts = s.first_ts;
    last_ts = s.last_ts;
    voiced_packets = s.voiced_packets;
    voiced_seconds = s.voiced_seconds;
    gate_open = true;
    pcm = pcm;
    pcm_dropped = s.pcm_dropped + dropped;
    rms_sum = s.rms_sum;
    rms_n = s.rms_n;
  }

  -- The decoded audio behind that of the ring, and how much of it is over the size of the ring.
  unfoldable pub push_audio : Bytes → Stream Float → RtpDemux Float → Stream Float × RtpDemux Float
  unfolding buffered decode_g711 bump
  push_audio audio s d =
      let pcm = s.pcm ++ decode_g711 s.codec_alaw audio in
      let over = length pcm - d.ring_bytes in
      if ltb d.ring_bytes (length pcm)
      then (buffered (drop over pcm) over s, with_stats (bump "pcm_dropped_bytes" over d.stats) d)
      else (buffered pcm 0 s, d)

  unfoldable pub put_stream : Stream Float → RtpDemux Float → RtpDemux Float
  unfolding Dict.put
  put_stream s d = with_streams (Dict.put s.key s d.streams) d

  module _ (rms : ℕ → ℕ → Float) (seconds : ℕ → Float) (plus : Float → Float → Float)
      (leb_float : Float → Float → Bool) (ltb_float : Float → Float → Bool)
      (zero_float : Float) where
    -- Stream.__init__
    unfoldable pub new_stream : StreamKey → ℕ → Bool → Stream Float
    new_stream key ts is_alaw = record {
      key = key;
      call_id = none;
      codec_alaw = is_alaw;
      packets = 0;
      first_ts = ts;
      last_ts = ts;
      voiced_packets = 0;
      voiced_seconds = zero_float;
      gate_open = false;
      pcm = [];
      pcm_dropped = 0;
      rms_sum = zero_float;
      rms_n = 0;
    }

    -- The energy of one packet.
    unfoldable pub measure : ℕ → Float → Bytes → Stream Float → Stream Float
    unfolding square_sum
    measure ts gate_rms audio s =
        let r = rms (square_sum s.codec_alaw audio) (length audio) in
        let voiced = leb_float gate_rms r in
        record {
          key = s.key;
          call_id = s.call_id;
          codec_alaw = s.codec_alaw;
          packets = s.packets + 1;
          first_ts = s.first_ts;
          last_ts = ts;
          voiced_packets = if voiced then s.voiced_packets + 1 else s.voiced_packets;
          voiced_seconds =
              if voiced then plus s.voiced_seconds (seconds (length audio)) else s.voiced_seconds;
          gate_open = s.gate_open;
          pcm = s.pcm;
          pcm_dropped = s.pcm_dropped;
          rms_sum = plus s.rms_sum r;
          rms_n = s.rms_n + 1;
        }

    -- The gate, and the ring behind it.
    unfoldable pub gate :
        ℕ → Bytes → Stream Float → RtpDemux Float → RtpDemux Float × Option (Stream Float)
    unfolding push_audio put_stream
    gate ts audio s d =
        let below = ltb_float s.voiced_seconds d.gate_seconds in
        let d' = if s.gate_open then d else counted "streams_gate_opened" d in
        let (s'', d'') = push_audio audio s d' in
        if not s.gate_open && below
        then (counted "rtp_below_gate" (put_stream s d), none)
        else (gc ts (put_stream s'' d''), some s'')

    -- The steps on a stream that is in the table.
    unfoldable pub hear :
        ℕ
        → Bytes
        → Stream Float
        → SipTracker
        → RtpDemux Float
        → RtpDemux Float × SipTracker × Option (Stream Float)
    unfolding gate measure attribute_stream
    hear ts audio s t d =
        let (s', t', d') = attribute_stream s t d in
        let (d'', out) = gate ts audio (measure ts d.gate_rms audio s') d' in (d'', t', out)

    -- The steps on the audio of a customer.
    unfoldable pub feed_stream :
        ℕ
        → StreamKey
        → Bool
        → Bytes
        → SipTracker
        → RtpDemux Float
        → RtpDemux Float × SipTracker × Option (Stream Float)
    unfolding hear new_stream Dict.get
    feed_stream ts key is_alaw audio t d = elim (Dict.get key d.streams) [
      | none ↦ hear ts audio (new_stream key ts is_alaw) t (counted "streams_customer" d)
      | some s ↦ hear ts audio s t d
    ]

    -- The steps on G.711.
    unfoldable pub feed_audio :
        ℕ
        → StreamKey
        → Bool
        → Bytes
        → SipTracker
        → RtpDemux Float
        → RtpDemux Float × SipTracker × Option (Stream Float)
    unfolding feed_stream audio_of count_source member
    feed_audio ts key is_alaw payload t d =
        if not (member key.src d.media_ips)
        then (count_source key.src (counted "rtp_not_customer" d), t, none)
        else elim (audio_of payload) [
          | none ↦ (d, t, none)
          | some audio ↦ feed_stream ts key is_alaw audio t d
        ]

    -- The steps behind the first _gc.
    unfoldable pub feed_packet :
        ℕ
        → StreamKey
        → Bytes
        → SipTracker
        → RtpDemux Float
        → RtpDemux Float × SipTracker × Option (Stream Float)
    unfolding feed_audio
    feed_packet ts key payload t d =
        let kind = byte payload 1 in
        let pt = bit_and kind 0x7f in
        if ltb (length payload) 13 || not (byte payload 0 / 64 == 2)
        then (d, t, none)
        else if leb 200 kind && leb kind 204
        then (counted "rtcp" d, t, none)
        else if not (pt == 0 || pt == 8)
        then (counted "rtp_other_codec" d, t, none)
        else feed_audio ts key (pt == 8) payload t d

    -- feed: the stream where its gate is open.
    unfoldable pub feed :
        ℕ
        → Text
        → ℕ
        → Text
        → ℕ
        → Bytes
        → SipTracker
        → RtpDemux Float
        → RtpDemux Float × SipTracker × Option (Stream Float)
    unfolding feed_packet gc
    feed ts src sport dst dport payload t d =
        feed_packet ts
          record {
            src = src;
            sport = sport;
            dst = dst;
            dport = dport;
            ssrc = word32 false payload 8;
          }
          payload t (gc ts d)
