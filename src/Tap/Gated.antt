-- ===== src/Tap/Gated.antt =====
-- phraseguard/tap.py: the streams of an RtpDemux, whatever datagrams it was fed.
use voip.Prelude.{
  ℕ, ◌+◌, ◌/◌, ◌≤◌, Bool, true, false, List, Option, none, some, Text, Text-eq, ◌≡◌, if_keeps, refl,
  sym, ◌∙◌, subst, inl, inr, Yields, Bool-cases, Option-cases, arith, member, ltb, leb, ◌==◌, ◌||◌,
  ◌&&◌, not, if◌then◌else◌, length, String,
}
use Prim.Native.Nat.{bit_and}
use voip.Prelude.Dict
use voip.Tap.G711.{Bytes, square_sum}
use voip.Tap.Capture.{byte, word32}
use voip.Tap.Sip.{StreamKey, SipTracker}
use voip.Tap.Rtp.{StreamKey-eq, Stream, RtpDemux, audio_of, counted, count_source, gc}
use voip.Tap.RtpFeed.{
  hear, attribute_stream, push_audio, put_stream, new_stream, measure, gate, feed_stream,
  feed_audio, feed_packet, feed,
}
use voip.Tap.Streams.{
  IsStream, IsDemux, limits_moved, gc-IsDemux, put_stream-IsDemux, push_audio-IsStream,
  attribute_stream-IsStream,
}

module _ {Float : Type 0} where
  -- A stream that is handed on has its gate open.
  abbrev pub IsHanded : List Text → ℕ → Stream Float → Type 0
  IsHanded ips ring s = (s.gate_open ≡ true) × IsStream ips ring (s.key, s)

  abbrev pub Limited : List Text → ℕ → RtpDemux Float × Option (Stream Float) → Type 0
  Limited ips ring r =
      IsDemux r.0 × (r.0.media_ips ≡ ips) × (r.0.ring_bytes ≡ ring) × Yields (IsHanded ips ring) r.1

  module _ (rms : ℕ → ℕ → Float) (seconds : ℕ → Float) (plus : Float → Float → Float)
      (leb_float : Float → Float → Bool) (ltb_float : Float → Float → Bool)
      (zero_float : Float) where
    measure-IsStream :
        (ts ring : ℕ) (ips : List Text) (gate_rms : Float) (audio : Bytes) (s : Stream Float)
        → IsStream ips ring (s.key, s)
        → let s' = measure rms seconds plus leb_float ltb_float zero_float ts gate_rms audio s in
          IsStream ips ring (s'.key, s')
    unfolding measure
    measure-IsStream ts ring ips gate_rms audio s (e, src, size, shut, voiced, n) =
        let loud = leb_float gate_rms (rms (square_sum s.codec_alaw audio) (length audio)) in
        (
          refl,
          src,
          size,
          shut,
          if_keeps (λ n. n ≤ s.packets + 1) loud (s.voiced_packets + 1) s.voiced_packets
              (omega arith) (omega arith),
          omega arith,
        )

    -- A stream behind its gate.
    handed-Limited :
        (ts : ℕ) (audio : Bytes) (s : Stream Float) (d : RtpDemux Float)
        → IsStream d.media_ips d.ring_bytes (s.key, s)
        → IsDemux d
        → let (s', d') = push_audio audio s d in
          Limited d.media_ips d.ring_bytes (gc ts (put_stream s' d'), some s')
    unfolding put_stream
    handed-Limited ts audio s d hs h =
        let (kept, is_open, h', (ips, ring)) = push_audio-IsStream audio s d hs h in
        let (s', d') = push_audio audio s d in
        let hp =
          put_stream-IsDemux s' d' (limits_moved _ _ _ _ (s'.key, s') (sym ips) (sym ring) kept)
            h' in
        let (hg, (ips', ring')) = gc-IsDemux ts (put_stream s' d') hp in
        (hg, ips' ∙ ips, ring' ∙ ring, (is_open, kept))

    -- Whether the gate opens now, or was open.
    opened-Limited :
        (ts : ℕ) (audio : Bytes) (s : Stream Float) (d : RtpDemux Float) (was_open : Bool)
        → IsStream d.media_ips d.ring_bytes (s.key, s)
        → IsDemux d
        → let (s', d') =
            push_audio audio s (if was_open then d else counted "streams_gate_opened" d) in
          Limited d.media_ips d.ring_bytes (gc ts (put_stream s' d'), some s')
    opened-Limited ts audio s d true hs h = handed-Limited ts audio s d hs h
    opened-Limited ts audio s d false hs h =
        handed-Limited ts audio s (counted "streams_gate_opened" d) hs h

    gate-Limited :
        (ts : ℕ) (audio : Bytes) (s : Stream Float) (d : RtpDemux Float)
        → IsStream d.media_ips d.ring_bytes (s.key, s)
        → IsDemux d
        → Limited d.media_ips d.ring_bytes
            (gate rms seconds plus leb_float ltb_float zero_float ts audio s d)
    unfolding gate
    gate-Limited ts audio s d hs h =
        let d0 = if s.gate_open then d else counted "streams_gate_opened" d in
        let (s', d') = push_audio audio s d0 in
        if_keeps (Limited d.media_ips d.ring_bytes)
          (not s.gate_open && ltb_float s.voiced_seconds d.gate_seconds)
          (counted "rtp_below_gate" (put_stream s d), none) (gc ts (put_stream s' d'), some s')
          (put_stream-IsDemux s d hs h, refl, refl, tt)
          (opened-Limited ts audio s d s.gate_open hs h)

    hear-Limited :
        (ts : ℕ) (audio : Bytes) (s : Stream Float) (t : SipTracker) (d : RtpDemux Float)
        → IsStream d.media_ips d.ring_bytes (s.key, s)
        → IsDemux d
        → let (d', t', out) = hear rms seconds plus leb_float ltb_float zero_float ts audio s t d in
          Limited d.media_ips d.ring_bytes (d', out)
    unfolding hear
    hear-Limited ts audio s t d hs h =
        let (s', t', d') = attribute_stream s t d in
        let (hs', h', (ips, ring)) = attribute_stream-IsStream s t d hs h in
        let s'' = measure rms seconds plus leb_float ltb_float zero_float ts d.gate_rms audio s' in
        let hm = measure-IsStream ts d.ring_bytes d.media_ips d.gate_rms audio s' hs' in
        let r = gate rms seconds plus leb_float ltb_float zero_float ts audio s'' d' in
        let fed =
          gate-Limited ts audio s'' d' (limits_moved _ _ _ _ (s''.key, s'') (sym ips) (sym ring) hm)
            h' in
        subst (λ i. Limited i d.ring_bytes r) ips (subst (λ n. Limited d'.media_ips n r) ring fed)

    feed_stream-Limited :
        (ts : ℕ) (key : StreamKey) (is_alaw : Bool) (audio : Bytes) (t : SipTracker)
        (d : RtpDemux Float)
        → member key.src d.media_ips ≡ true
        → IsDemux d
        → let (d', t', out) =
            feed_stream rms seconds plus leb_float ltb_float zero_float ts key is_alaw audio t d in
          Limited d.media_ips d.ring_bytes (d', out)
    unfolding feed_stream new_stream
    feed_stream-Limited ts key is_alaw audio t d ours h =
        elim (Option-cases (Dict.get key d.streams)) [
          | inl fresh ↦
              let s = new_stream rms seconds plus leb_float ltb_float zero_float key ts is_alaw in
              rw (feed_stream, fresh)
                (hear-Limited ts audio s t (counted "streams_customer" d)
                  (refl, ours, omega arith, inr refl, omega arith, refl) h)
          | inr (s, known) ↦
              let hs = Dict.get-All (IsStream d.media_ips d.ring_bytes) key s d.streams known h in
              let own = subst (λ k. IsStream d.media_ips d.ring_bytes (k, s)) (sym hs.0) hs in
              rw (feed_stream, known) (hear-Limited ts audio s t d own h)
        ]

    -- What the steps return, without the tracker.
    abbrev Limited3 : List Text → ℕ → RtpDemux Float × SipTracker × Option (Stream Float) → Type 0
    Limited3 ips ring r = Limited ips ring (r.0, r.2)

    feed_audio-Limited :
        (ts : ℕ) (key : StreamKey) (is_alaw : Bool) (payload : Bytes) (t : SipTracker)
        (d : RtpDemux Float)
        → IsDemux d
        → Limited3 d.media_ips d.ring_bytes
            (feed_audio rms seconds plus leb_float ltb_float zero_float ts key is_alaw payload t d)
    unfolding feed_audio count_source
    feed_audio-Limited ts key is_alaw payload t d h =
        elim (Bool-cases (member key.src d.media_ips)) [
          | inr other ↦ rw (feed_audio, other) (h, refl, refl, tt)
          | inl ours ↦ elim (Option-cases (audio_of payload)) [
            | inl silent ↦ rw (feed_audio, ours, silent) (h, refl, refl, tt)
            | inr (audio, spoken) ↦
                rw (feed_audio, ours, spoken) (feed_stream-Limited ts key is_alaw audio t d ours h)
          ]
        ]

    -- The guards before the source is looked at.
    pub feed_packet-keeps :
        (P : RtpDemux Float × SipTracker × Option (Stream Float) → Type 0) (ts : ℕ)
        (key : StreamKey) (payload : Bytes) (t : SipTracker) (d : RtpDemux Float)
        → P (d, t, none)
        → ((name : String) → P (counted name d, t, none))
        → P (
            feed_audio rms seconds plus leb_float ltb_float zero_float ts key
              (bit_and (byte payload 1) 0x7f == 8)
              payload
              t
              d)
        → P (feed_packet rms seconds plus leb_float ltb_float zero_float ts key payload t d)
    unfolding feed_packet
    feed_packet-keeps P ts key payload t d same seen heard =
        let kind = byte payload 1 in
        let pt = bit_and kind 0x7f in
        let audio =
          feed_audio rms seconds plus leb_float ltb_float zero_float ts key (pt == 8) payload t d in
        let other =
          if not (pt == 0 || pt == 8) then (counted "rtp_other_codec" d, t, none) else audio in
        let rtcp = if leb 200 kind && leb kind 204 then (counted "rtcp" d, t, none) else other in
        if_keeps P (ltb (length payload) 13 || not (byte payload 0 / 64 == 2)) (d, t, none) rtcp
          same
          (if_keeps P (leb 200 kind && leb kind 204) (counted "rtcp" d, t, none) other (seen "rtcp")
            (if_keeps P (not (pt == 0 || pt == 8)) (counted "rtp_other_codec" d, t, none) audio
              (seen "rtp_other_codec") heard))

    -- Whatever datagram a demux is fed: each stream stands under its own key, comes from an address of
    -- the customers, holds no more audio than the ring and none before its gate is open, and a stream
    -- that is handed on has its gate open.
    pub feed-Limited :
        (ts : ℕ) (src : Text) (sport : ℕ) (dst : Text) (dport : ℕ) (payload : Bytes)
        (t : SipTracker) (d : RtpDemux Float)
        → IsDemux d
        → let (d', t', out) =
            feed rms seconds plus leb_float ltb_float zero_float ts src sport dst dport payload t
              d in
          Limited d.media_ips d.ring_bytes (d', out)
    unfolding feed
    feed-Limited ts src sport dst dport payload t d h =
        let key : StreamKey = record {
          src = src;
          sport = sport;
          dst = dst;
          dport = dport;
          ssrc = word32 false payload 8;
        } in
        let (h', (ips, ring)) = gc-IsDemux ts d h in
        let fed =
          feed_packet-keeps (Limited3 (gc ts d).media_ips (gc ts d).ring_bytes) ts key payload t
            (gc ts d) (h', refl, refl, tt) (λ name. (h', refl, refl, tt))
            (feed_audio-Limited ts key _ payload t (gc ts d) h') in
        let r =
          feed_packet rms seconds plus leb_float ltb_float zero_float ts key payload t (gc ts d) in
        subst (λ i. Limited3 i d.ring_bytes r) ips
          (subst (λ n. Limited3 (gc ts d).media_ips n r) ring fed)
