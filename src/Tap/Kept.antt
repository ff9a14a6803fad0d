-- ===== src/Tap/Kept.antt =====
-- phraseguard/tap.py: what Tap.run keeps of its parts and of what the callbacks see.
use voip.Prelude.{
  if_keeps, ℕ, ◌≤◌, ◌<◌, Bool, true, false, ◌&&◌, ◌||◌, not, List, [], ◌∷◌, Option, leb, ◌==◌,
  if◌then◌else◌, Text, Text-eq, ◌≡◌, refl, sym, ◌∙◌, subst, inl, inr, Bool-cases, Option-cases,
  member, length, arith, Yields, Yields-some,
}
use voip.Metaphone.Loop.{is_empty}
use voip.Tap.G711.{Bytes}
use voip.Tap.Capture.{Packet}
use voip.Tap.Sip.{CallInfo}
use voip.Tap.SipFeed.{feed as feed_sip}
use voip.Tap.Rtp.{Stream, take_pcm}
use voip.Tap.RtpFeed.{put_stream, feed as feed_rtp}
use voip.Tap.Tracked.{IsTracker, feed-Fed as sip-Fed}
use voip.Tap.Streams.{IsStream, IsDemux, put_stream-IsDemux, limits_moved}
use voip.Tap.Gated.{IsHanded, feed-Limited}
use voip.Tap.Attributed.{feed-IsTracker}
use voip.Tap.Run.{
  Tap, call_of, is_raised, count, with_tracker, with_demux, with_world, stop_at, hand_over, on_rtp,
  on_sip, step, run,
}

not_empty : (pcm : Bytes) → is_empty pcm ≡ false → 0 < length pcm
unfolding is_empty
not_empty [] e = absurd (cc e)
not_empty (x ∷ pcm) e = omega arith

module _ {Float : Type 0} (ips : List Text) (ring : ℕ) where
  -- What on_audio is given: a stream of a customer behind its gate, and some audio, no more than a
  -- ring, that the stream does not keep.
  abbrev pub IsGiven : Stream Float → Bytes → Type 0
  IsGiven st pcm =
      (st.gate_open ≡ true)
      × (member st.key.src ips ≡ true)
      × (st.pcm ≡ [])
      × (0 < length pcm)
      × (length pcm ≤ ring)

  module _ {W : Type 0} (Q : W → Type 0) where
    abbrev pub IsTap : Tap Float W → Type 0
    IsTap t =
        IsTracker t.tracker
        × IsDemux t.demux
        × (t.demux.media_ips ≡ ips)
        × (t.demux.ring_bytes ≡ ring)
        × Q t.world

    module _ (on_audio : Stream Float → Bytes → Option CallInfo → W → W × Bool)
        (stop : W → W × Bool)
        (audio_keeps : (st : Stream Float) (pcm : Bytes) (call : Option CallInfo) (w : W)
          → IsGiven st pcm
          → Q w
          → Q (on_audio st pcm call w).0)
        (stop_keeps : (w : W) → Q w → Q (stop w).0) where
      hand_over-IsTap :
          (st : Stream Float) (t : Tap Float W)
          → IsHanded ips ring st
          → IsTap t
          → IsTap (hand_over on_audio stop st t)
      unfolding hand_over take_pcm count put_stream
      hand_over-IsTap st t (is_open, (e, src, size, shut, voiced, n)) (ht, hd, hi, hr, hq) =
          let (pcm, st') = take_pcm st in
          let t1 = with_demux t.tracker (put_stream st' t.demux) t in
          let (world, fails) = on_audio st' pcm (call_of st.call_id t.tracker) t.world in
          let t2 = with_world world t1 in
          let t3 = if fails then count "asr_errors" t2 else t2 in
          let (world', stops) = stop t3.world in
          let drained : IsStream ips ring (st'.key, st') =
            (refl, src, omega arith, inr refl, voiced, n) in
          let hd' =
            put_stream-IsDemux st' t.demux
              (limits_moved _ _ _ _ (st'.key, st') (sym hi) (sym hr) drained) hd in
          elim (Bool-cases (is_empty pcm)) [
            | inl silent ↦ rw (hand_over, silent) (ht, hd', hi, hr, hq)
            | inr sound ↦
                let given : IsGiven st' pcm = (is_open, src, refl, not_empty pcm sound, size) in
                let hq1 = audio_keeps st' pcm (call_of st.call_id t.tracker) t.world given hq in
                let h3 =
                  if_keeps IsTap fails (count "asr_errors" t2) t2 (ht, hd', hi, hr, hq1)
                    (ht, hd', hi, hr, hq1) in
                let (a, b, c, d, q) = h3 in
                rw (hand_over, sound) (a, b, c, d, stop_keeps t3.world q)
          ]

      module _ (rms : ℕ → ℕ → Float) (seconds : ℕ → Float) (plus : Float → Float → Float)
          (leb_float : Float → Float → Bool) (ltb_float : Float → Float → Bool)
          (zero_float : Float) where
        on_rtp-IsTap :
            (p : Packet) (t : Tap Float W)
            → IsTap t
            → IsTap (on_rtp on_audio stop rms seconds plus leb_float ltb_float zero_float p t)
        unfolding on_rtp count
        on_rtp-IsTap p t (ht, hd, hi, hr, hq) =
            let r =
              feed_rtp rms seconds plus leb_float ltb_float zero_float p.ts p.src p.sport p.dst
                p.dport p.payload t.tracker t.demux in
            let (hd', hi', hr', handed) =
              feed-Limited rms seconds plus leb_float ltb_float zero_float p.ts p.src p.sport p.dst
                p.dport p.payload t.tracker t.demux hd in
            let ht' =
              feed-IsTracker rms seconds plus leb_float ltb_float zero_float p.ts p.src p.sport
                p.dst p.dport p.payload t.tracker t.demux ht in
            let t' = with_demux r.1 r.0 (count "rtp" t) in
            let h' : IsTap t' = (ht', hd', hi' ∙ hi, hr' ∙ hr, hq) in
            let mine =
              subst (λ i. Yields (IsHanded i ring) r.2) hi
                (subst (λ n. Yields (IsHanded t.demux.media_ips n) r.2) hr handed) in
            elim (Option-cases r.2) [
              | inl silent ↦ rw (on_rtp, silent) h'
              | inr (st, open_) ↦
                  rw (on_rtp, open_)
                    (hand_over-IsTap st t' (Yields-some (IsHanded ips ring) r.2 st mine open_) h')
            ]

        module _ (is_digit : Text → Bool) (to_int : Text → Option ℕ) (decode : Bytes → Text) where
          on_sip-IsTap :
              (p : Packet) (t : Tap Float W)
              → IsTap t
              → IsTap (
                  on_sip on_audio stop rms seconds plus leb_float ltb_float zero_float is_digit
                    to_int decode p t)
          unfolding on_sip count
          on_sip-IsTap p t (ht, hd, hi, hr, hq) =
              let (tracker, reply) =
                feed_sip is_digit to_int decode p.ts p.src p.dst p.payload t.tracker in
              let fed = sip-Fed is_digit to_int decode p.ts p.src p.dst p.payload t.tracker ht in
              let t' = with_tracker tracker (count "sip" t) in
              if_keeps IsTap (is_raised reply) (count "sip_errors" t') t' (fed.0, hd, hi, hr, hq)
                (fed.0, hd, hi, hr, hq)

          module _ (on_packet : Packet → W → W)
              (packet_keeps : (p : Packet) (w : W) → Q w → Q (on_packet p w))
              (rtp_lo rtp_hi : ℕ) where
            step-IsTap :
                (p : Packet) (t : Tap Float W)
                → IsTap t
                → IsTap (
                    step on_audio stop rms seconds plus leb_float ltb_float zero_float is_digit
                      to_int decode on_packet rtp_lo rtp_hi p t)
            unfolding step count
            step-IsTap p t0 (ht, hd, hi, hr, hq) =
                let (world, stops) = stop t0.world in
                let hw = stop_keeps t0.world hq in
                let t = count "packets" (with_world world t0) in
                let t' = with_world (on_packet p t.world) t in
                let h' : IsTap t' = (ht, hd, hi, hr, packet_keeps p world hw) in
                let rtp =
                  on_rtp on_audio stop rms seconds plus leb_float ltb_float zero_float p t' in
                let sip =
                  on_sip on_audio stop rms seconds plus leb_float ltb_float zero_float is_digit
                    to_int decode p t' in
                let in_range = leb rtp_lo p.dport && leb p.dport rtp_hi in
                if_keeps IsTap stops (stop_at true (with_world world t0))
                  (if p.sport == 5060 || p.dport == 5060
                    then sip
                    else if not in_range
                    then t'
                    else rtp)
                  (ht, hd, hi, hr, hw)
                  (if_keeps IsTap (p.sport == 5060 || p.dport == 5060) sip
                    (if not in_range then t' else rtp) (on_sip-IsTap p t' h')
                    (if_keeps IsTap (not in_range) t' rtp h' (on_rtp-IsTap p t' h')))

            -- Whatever packets Tap.run reads and however on_audio fails: the calls of the tracker stay
            -- those of the customers and the streams of the demux within their limits. Each time
            -- on_audio is called it gets some audio, at most a ring, of a customer's stream whose gate
            -- is open, so that what such calls keep holds at the end.
            pub run-IsTap :
                (packets : List Packet) (t : Tap Float W)
                → IsTap t
                → IsTap (
                    run on_audio stop rms seconds plus leb_float ltb_float zero_float is_digit
                      to_int decode on_packet rtp_lo rtp_hi packets t)
            unfolding run
            run-IsTap [] t h = h
            run-IsTap (p ∷ packets) t h =
                let t' =
                  step on_audio stop rms seconds plus leb_float ltb_float zero_float is_digit to_int
                    decode on_packet rtp_lo rtp_hi p t in
                if_keeps IsTap t.stopped t _ h (run-IsTap packets t' (step-IsTap p t h))
