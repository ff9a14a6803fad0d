-- ===== src/Tap/Rtp.antt =====
-- phraseguard/tap.py: Stream and RtpDemux, from RTP datagrams to the audio of a stream.
-- Floats are a parameter: the square root of a mean, the seconds of a frame, their sum and order.
use Prim.Native.Nat.{bit_and}
use voip.Prelude.{
  ℕ, zero, suc, ◌+◌, ◌-◌, ◌*◌, ◌/◌, Bool, true, ◌&&◌, List, [], ◌∷◌, Option, none, some, ltb, leb,
  ◌==◌, if◌then◌else◌, Text, Text-eq, same_text, same_text_iff, length, drop, String, String-eq,
  ◌≡◌, ==_iff, and-true, and_intro, ap,
}
use voip.Prelude.Dict
use voip.Prelude.Keys.{Eq}
use voip.Tap.G711.{Bytes}
use voip.Tap.Capture.{byte, word16}
use voip.Tap.Sip.{StreamKey, second}

unfoldable pub same_key : StreamKey → StreamKey → Bool
unfolding same_text
same_key a b =
    same_text a.src b.src
    && (a.sport == b.sport && (same_text a.dst b.dst && (a.dport == b.dport && a.ssrc == b.ssrc)))

pub same_key-eq : (a b : StreamKey) → same_key a b ≡ true → a ≡ b
unfolding same_key
same_key-eq a b h =
    let (e1, h1) = and-true (same_text a.src b.src) _ h in
    let (e2, h2) = and-true (a.sport == b.sport) _ h1 in
    let (e3, h3) = and-true (same_text a.dst b.dst) _ h2 in
    let (e4, e5) = and-true (a.dport == b.dport) (a.ssrc == b.ssrc) h3 in
    λ i. record {
      src = (same_text_iff a.src b.src).0 e1 i;
      sport = (==_iff a.sport b.sport).0 e2 i;
      dst = (same_text_iff a.dst b.dst).0 e3 i;
      dport = (==_iff a.dport b.dport).0 e4 i;
      ssrc = (==_iff a.ssrc b.ssrc).0 e5 i;
    }

pub eq-same_key : (a b : StreamKey) → a ≡ b → same_key a b ≡ true
unfolding same_key
eq-same_key a b e = and_intro _ _ ((same_text_iff a.src b.src).1 (ap (λ k. k.src) e)) (
    and_intro _ _ ((==_iff a.sport b.sport).1 (ap (λ k. k.sport) e)) (
      and_intro _ _ ((same_text_iff a.dst b.dst).1 (ap (λ k. k.dst) e)) (
        and_intro _ _ ((==_iff a.dport b.dport).1 (ap (λ k. k.dport) e))
          ((==_iff a.ssrc b.ssrc).1 (ap (λ k. k.ssrc) e)))))

instance abbrev pub StreamKey-eq : Eq StreamKey
StreamKey-eq = record { beq = same_key; beq_iff = λ a b. (same_key-eq a b, eq-same_key a b) }

-- collections.Counter, with the names of the code as keys.
abbrev pub Counter : Type 0
Counter = List (String × ℕ)

-- stats[name] += n
unfoldable pub bump : String → ℕ → Counter → Counter
unfolding Dict.get Dict.put
bump name n stats = Dict.put name (elim (Dict.get name stats) [ none ↦ n | some m ↦ m + n ]) stats

-- stats["streams_closed"] += 1 for each; no entry where there is none.
unfoldable pub count_closed : ℕ → Counter → Counter
unfolding bump
count_closed zero stats = stats
count_closed (suc n) stats = bump "streams_closed" (suc n) stats

pub record Stream (Float : Type 0) : Type 0 where
  pub key : StreamKey
  pub call_id : Option Text
  pub codec_alaw : Bool
  pub packets : ℕ
  pub first_ts : ℕ
  pub last_ts : ℕ
  pub voiced_packets : ℕ
  pub voiced_seconds : Float
  pub gate_open : Bool
  pub pcm : Bytes
  pub pcm_dropped : ℕ
  pub rms_sum : Float
  pub rms_n : ℕ

pub record RtpDemux (Float : Type 0) : Type 0 where
  pub media_ips : List Text
  pub gate_rms : Float
  pub gate_seconds : Float
  pub ring_bytes : ℕ
  pub idle_timeout : ℕ
  pub streams : List (StreamKey × Stream Float)
  pub stats : Counter
  pub other_sources : List (Text × ℕ)
  pub last_gc : ℕ

-- The audio behind the header of an RTP packet, where there is some.
unfoldable pub audio_of : Bytes → Option Bytes
audio_of payload =
    let hdr = 12 + bit_and (byte payload 0) 0x0f * 4 in
    let longer = hdr + 4 + 4 * word16 payload (hdr + 2) in
    let behind = if leb (length payload) longer then none else some (drop longer payload) in
    let plain = if leb (length payload) hdr then none else some (drop hdr payload) in
    if bit_and (byte payload 0 / 16) 0x01 == 0
    then plain
    else if ltb (length payload) (hdr + 4)
    then none
    else behind

module _ {Float : Type 0} where
  abbrev pub with_streams : List (StreamKey × Stream Float) → RtpDemux Float → RtpDemux Float
  with_streams streams d = record {
    media_ips = d.media_ips;
    gate_rms = d.gate_rms;
    gate_seconds = d.gate_seconds;
    ring_bytes = d.ring_bytes;
    idle_timeout = d.idle_timeout;
    streams = streams;
    stats = d.stats;
    other_sources = d.other_sources;
    last_gc = d.last_gc;
  }

  abbrev pub with_stats : Counter → RtpDemux Float → RtpDemux Float
  with_stats stats d = record {
    media_ips = d.media_ips;
    gate_rms = d.gate_rms;
    gate_seconds = d.gate_seconds;
    ring_bytes = d.ring_bytes;
    idle_timeout = d.idle_timeout;
    streams = d.streams;
    stats = stats;
    other_sources = d.other_sources;
    last_gc = d.last_gc;
  }

  -- self.stats[name] += 1
  abbrev pub counted : String → RtpDemux Float → RtpDemux Float
  counted name d = with_stats (bump name 1 d.stats) d

  -- self.other_sources[src] = self.other_sources.get(src, 0) + 1
  unfoldable pub count_source : Text → RtpDemux Float → RtpDemux Float
  unfolding Dict.get Dict.put
  count_source src d = record {
    media_ips = d.media_ips;
    gate_rms = d.gate_rms;
    gate_seconds = d.gate_seconds;
    ring_bytes = d.ring_bytes;
    idle_timeout = d.idle_timeout;
    streams = d.streams;
    stats = d.stats;
    other_sources =
        Dict.put src (elim (Dict.get src d.other_sources) [ none ↦ 1 | some n ↦ n + 1 ])
          d.other_sources;
    last_gc = d.last_gc;
  }

  -- The streams of `dead` popped and counted.
  unfoldable pub close_idle :
      ℕ → ℕ → List (StreamKey × Stream Float) → List (StreamKey × Stream Float) × ℕ
  close_idle idle_timeout now [] = ([], 0)
  close_idle idle_timeout now ((k, s) ∷ streams) =
      let (left, closed) = close_idle idle_timeout now streams in
      if ltb idle_timeout (now - s.last_ts) then (left, suc closed) else ((k, s) ∷ left, closed)

  -- _gc
  unfoldable pub gc : ℕ → RtpDemux Float → RtpDemux Float
  unfolding close_idle count_closed
  gc now d =
      let (left, closed) = close_idle d.idle_timeout now d.streams in
      if ltb (now - d.last_gc) (30 * second) then d else record {
        media_ips = d.media_ips;
        gate_rms = d.gate_rms;
        gate_seconds = d.gate_seconds;
        ring_bytes = d.ring_bytes;
        idle_timeout = d.idle_timeout;
        streams = left;
        stats = count_closed closed d.stats;
        other_sources = d.other_sources;
        last_gc = now;
      }

  -- take_pcm: what is buffered, and the stream without it.
  unfoldable pub take_pcm : Stream Float → Bytes × Stream Float
  take_pcm s = (
    s.pcm,
    record {
      key = s.key;
      call_id = s.call_id;
      codec_alaw = s.codec_alaw;
      packets = s.packets;
      first_ts = s.first_ts;
      last_ts = s.last_ts;
      voiced_packets = s.voiced_packets;
      voiced_seconds = s.voiced_seconds;
      gate_open = s.gate_open;
      pcm = [];
      pcm_dropped = s.pcm_dropped;
      rms_sum = s.rms_sum;
      rms_n = s.rms_n;
    },
  )
