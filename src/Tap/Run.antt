-- ===== src/Tap/Run.antt =====
-- phraseguard/tap.py: Tap.run, from packets to the callbacks.
-- `W` is what the callbacks see and change; on_audio says whether it raised. The body of feed raises
-- nothing that is modelled for RTP, so that rtp_errors stays 0.
use voip.Prelude.{
  ℕ, Bool, true, false, ◌&&◌, ◌||◌, not, List, [], ◌∷◌, Option, none, some, leb, ◌==◌,
  if◌then◌else◌, Text, Text-eq, String,
}
use voip.Prelude.Dict
use voip.Metaphone.Loop.{is_empty}
use voip.Tap.G711.{Bytes}
use voip.Tap.Capture.{Packet}
use voip.Tap.Sip.{CallInfo, SipTracker}
use voip.Tap.SipFeed.{Reply, raised, nothing, touched, feed as feed_sip}
use voip.Tap.Rtp.{Stream, RtpDemux, Counter, bump, take_pcm}
use voip.Tap.RtpFeed.{put_stream, feed as feed_rtp}

-- A tap in its loop; `stopped` is for `break`.
pub record Tap (Float W : Type 0) : Type 0 where
  pub tracker : SipTracker
  pub demux : RtpDemux Float
  pub stats : Counter
  pub world : W
  pub stopped : Bool

-- self.tracker.calls.get(st.call_id) if st.call_id else None
unfoldable pub call_of : Option Text → SipTracker → Option CallInfo
call_of none t = none
call_of (some cid) t = if is_empty cid then none else Dict.get cid t.calls

unfoldable pub is_raised : Reply → Bool
is_raised nothing = false
is_raised (touched c) = false
is_raised raised = true

module _ {Float W : Type 0} where
  unfoldable pub count : String → Tap Float W → Tap Float W
  count name t = record {
    tracker = t.tracker;
    demux = t.demux;
    stats = bump name 1 t.stats;
    world = t.world;
    stopped = t.stopped;
  }

  abbrev pub with_tracker : SipTracker → Tap Float W → Tap Float W
  with_tracker tracker t = record {
    tracker = tracker;
    demux = t.demux;
    stats = t.stats;
    world = t.world;
    stopped = t.stopped;
  }

  abbrev pub with_demux : SipTracker → RtpDemux Float → Tap Float W → Tap Float W
  with_demux tracker demux t = record {
    tracker = tracker;
    demux = demux;
    stats = t.stats;
    world = t.world;
    stopped = t.stopped;
  }

  abbrev pub with_world : W → Tap Float W → Tap Float W
  with_world world t = record {
    tracker = t.tracker;
    demux = t.demux;
    stats = t.stats;
    world = world;
    stopped = t.stopped;
  }

  abbrev pub stop_at : Bool → Tap Float W → Tap Float W
  stop_at stopped t = record {
    tracker = t.tracker;
    demux = t.demux;
    stats = t.stats;
    world = t.world;
    stopped = stopped;
  }

  module _ (on_audio : Stream Float → Bytes → Option CallInfo → W → W × Bool)
      (stop : W → W × Bool) where
    -- The steps on a stream whose gate is open.
    unfoldable pub hand_over : Stream Float → Tap Float W → Tap Float W
    hand_over st t =
        let (pcm, st') = take_pcm st in
        let t1 = with_demux t.tracker (put_stream st' t.demux) t in
        let (world, fails) = on_audio st' pcm (call_of st.call_id t.tracker) t.world in
        let t2 = with_world world t1 in
        let t3 = if fails then count "asr_errors" t2 else t2 in
        let (world', stops) = stop t3.world in
        if is_empty pcm then t1 else stop_at stops (with_world world' t3)

    module _ (rms : ℕ → ℕ → Float) (seconds : ℕ → Float) (plus : Float → Float → Float)
        (leb_float : Float → Float → Bool) (ltb_float : Float → Float → Bool)
        (zero_float : Float) where
      unfoldable pub on_rtp : Packet → Tap Float W → Tap Float W
      on_rtp p t0 =
          let t = count "rtp" t0 in
          let (demux, tracker, out) =
            feed_rtp rms seconds plus leb_float ltb_float zero_float p.ts p.src p.sport p.dst
              p.dport p.payload t.tracker t.demux in
          elim out [
            | none ↦ with_demux tracker demux t
            | some st ↦ hand_over st (with_demux tracker demux t)
          ]

      module _ (is_digit : Text → Bool) (to_int : Text → Option ℕ) (decode : Bytes → Text) where
        unfoldable pub on_sip : Packet → Tap Float W → Tap Float W
        on_sip p t0 =
            let t = count "sip" t0 in
            let (tracker, reply) =
              feed_sip is_digit to_int decode p.ts p.src p.dst p.payload t.tracker in
            let t' = with_tracker tracker t in if is_raised reply then count "sip_errors" t' else t'

        module _ (on_packet : Packet → W → W) (rtp_lo rtp_hi : ℕ) where
          -- One packet.
          unfoldable pub step : Packet → Tap Float W → Tap Float W
          step p t0 =
              let (world, stops) = stop t0.world in
              let t = count "packets" (with_world world t0) in
              let t' = with_world (on_packet p t.world) t in
              if stops
              then stop_at true (with_world world t0)
              else if p.sport == 5060 || p.dport == 5060
              then on_sip p t'
              else if not (leb rtp_lo p.dport && leb p.dport rtp_hi)
              then t'
              else on_rtp p t'

          -- The loop of run.
          unfoldable pub run : List Packet → Tap Float W → Tap Float W
          run [] t = t
          run (p ∷ packets) t = let more = run packets (step p t) in if t.stopped then t else more
