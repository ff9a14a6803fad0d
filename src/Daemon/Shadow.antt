-- ===== src/Daemon/Shadow.antt =====
-- phraseguard/phraseguardd.py on phraseguard/tap.py: the daemon behind the tap.
use voip.Prelude.{
  if_keeps, ℕ, suc, Bool, false, List, Option, none, some, Text, Text-eq, leb, length, refl, inl,
  inr, Bool-cases, Option-cases, member,
}
use voip.Prelude.Dict
use voip.Matcher.Spans.{FloatOps, Thresholds}
use voip.Matcher.Scan.{Corpus, match}
use voip.Matcher.Window.{Window, add as add_text}
use voip.Matcher.Scorer.{Scorer}
use voip.Actuator.Live.{IsLinked}
use voip.Tap.G711.{Bytes}
use voip.Tap.Capture.{Packet}
use voip.Tap.Sip.{StreamKey, CallInfo}
use voip.Tap.Rtp.{StreamKey-eq, Stream}
use voip.Tap.Tracked.{IsTracker}
use voip.Tap.Streams.{IsDemux}
use voip.Tap.Run.{Tap, run as run_tap}
use voip.Tap.Kept.{run-IsTap}
use voip.Daemon.Audio.{
  PhraseGuard, Session, count_call, with_stats, put_session, hear_session, on_audio, prune,
}
use voip.Daemon.Enforced.{Enforced, Enforced-chain, handle_all-Enforced}

module _ {Float R : Type 0} (run : ℕ → Text → Option Text) (int_of : Text → Option ℕ)
    (is_digit : ℕ → Bool) (scorer : Scorer) (ops : FloatOps) (th : Thresholds (FloatOps.Float ops))
    (corpus : Corpus) (accept_pcm : R → Bytes → R × Option Text) where
  open ops use {Float as Score}

  hear_session-Enforced :
      (clock : ℕ) (key : StreamKey) (pcm : Bytes) (call : Option CallInfo) (s : Session R Score)
      (p : PhraseGuard Float R Score)
      → IsLinked p.guard.resolver.table
      → Enforced run int_of is_digit p.guard
          (hear_session run int_of is_digit scorer ops th corpus accept_pcm clock key pcm call s
            p).0.guard
  unfolding hear_session
  hear_session-Enforced clock key pcm call s p l = elim (Option-cases (accept_pcm s.rec pcm).1) [
    | inl silent ↦ rw (hear_session, silent) (l, refl, refl, refl, inr refl)
    | inr (text, spoken) ↦
        let (w, first_new) = add_text s.win text clock in
        rw (hear_session, spoken)
          (handle_all-Enforced run int_of is_digit scorer clock call
            (match ops th corpus w.tokens first_new false) w
            (with_stats (λ t. record t { utterances = suc t.utterances }) p).guard l)
  ]

  count_call-Enforced :
      (clock : ℕ) (call : Option CallInfo) (p : PhraseGuard Float R Score)
      → IsLinked p.guard.resolver.table
      → Enforced run int_of is_digit p.guard (count_call clock call p).guard
  unfolding count_call
  count_call-Enforced clock none p l = (l, refl, refl, refl, inr refl)
  count_call-Enforced clock (some c) p l =
      if_keeps (λ (q : PhraseGuard Float R Score). Enforced run int_of is_digit p.guard q.guard)
        (member c.call_id p.counted_calls) p _ (l, refl, refl, refl, inr refl)
        (l, refl, refl, refl, inr refl)

  on_audio-Enforced :
      (new_rec : R) (clock max_streams : ℕ) (window : Window Score) (stream : Stream Float)
      (pcm : Bytes) (call : Option CallInfo) (p : PhraseGuard Float R Score)
      → IsLinked p.guard.resolver.table
      → Enforced run int_of is_digit p.guard
          (on_audio run int_of is_digit scorer ops th corpus accept_pcm new_rec clock max_streams
            window stream pcm call p).0.guard
  unfolding on_audio
  on_audio-Enforced new_rec clock max_streams window stream pcm call p l =
      elim (Option-cases (Dict.get stream.key p.sessions)) [
        | inr (s, known) ↦
            rw (on_audio, known) (hear_session-Enforced clock stream.key pcm call s p l)
        | inl fresh ↦ elim (Bool-cases (leb max_streams (length p.sessions))) [
          | inl full ↦ rw (on_audio, fresh, full) (l, refl, refl, refl, inr refl)
          | inr room ↦
              let s : Session R Score = record {
                rec = new_rec;
                win = window;
                since = 0;
                call_id = stream.call_id;
              } in
              let p' = put_session stream.key s p in
              let counted = count_call-Enforced clock call p' l in
              let heard =
                hear_session-Enforced clock stream.key pcm call s (count_call clock call p')
                  counted.0 in
              let after =
                hear_session run int_of is_digit scorer ops th corpus accept_pcm clock stream.key
                  pcm call s (count_call clock call p') in
              rw (on_audio, fresh, room)
                (Enforced-chain run int_of is_digit p.guard (count_call clock call p').guard
                  after.0.guard counted heard)
        ]
      ]

  -- The daemon behind the tap: each call of on_audio has its own clock, recogniser and window, and the
  -- housekeeping, as far as it prunes, its own lists of what is live.
  module _ (new_rec : PhraseGuard Float R Score → R) (clock : PhraseGuard Float R Score → ℕ)
      (max_streams : ℕ) (window : Window Score) (live : PhraseGuard Float R Score → List StreamKey)
      (calls : PhraseGuard Float R Score → List Text)
      (stopping : PhraseGuard Float R Score → Bool) where
    abbrev pub hear :
        Stream Float
        → Bytes
        → Option CallInfo
        → PhraseGuard Float R Score
        → PhraseGuard Float R Score × Bool
    hear st pcm call p =
        on_audio run int_of is_digit scorer ops th corpus accept_pcm (new_rec p) (clock p)
          max_streams window st pcm call p

    abbrev pub stop_check : PhraseGuard Float R Score → PhraseGuard Float R Score × Bool
    stop_check p = (prune (live p) (calls p) p, stopping p)

    module _ (rms : ℕ → ℕ → Float) (seconds : ℕ → Float) (plus : Float → Float → Float)
        (leb_float : Float → Float → Bool) (ltb_float : Float → Float → Bool) (zero_float : Float)
        (is_digit_text : Text → Bool) (decode : Bytes → Text) (rtp_lo rtp_hi : ℕ) where
      -- From a state whose calls, streams and channel table are as their invariants say, whatever packets
      -- the tap reads, whatever is recognised in them and however Asterisk answers, the daemon sends
      -- Asterisk a command that asks for a hangup only with enforcement on; the hangups that it sends,
      -- those that the actuator counts and the kills of its statistics grow by the same number; and
      -- enforcement stays as it was.
      pub run-Enforced :
          (packets : List Packet) (t : Tap Float (PhraseGuard Float R Score))
          → IsTracker t.tracker
          → IsDemux t.demux
          → IsLinked t.world.guard.resolver.table
          → Enforced run int_of is_digit t.world.guard
              (run_tap hear stop_check rms seconds plus leb_float ltb_float zero_float is_digit_text
                int_of decode
                (λ p w. w)
                rtp_lo
                rtp_hi
                packets
                t).world.guard
      unfolding prune
      run-Enforced packets t ht hd l =
          let Q : PhraseGuard Float R Score → Type 0 =
            λ p. Enforced run int_of is_digit t.world.guard p.guard in
          let kept =
            run-IsTap t.demux.media_ips t.demux.ring_bytes Q hear stop_check
              (λ st pcm call p given q.
                Enforced-chain run int_of is_digit t.world.guard p.guard
                  (hear st pcm call p).0.guard q
                  (on_audio-Enforced (new_rec p) (clock p) max_streams window st pcm call p q.0))
              (λ p q. q) rms seconds plus leb_float ltb_float zero_float is_digit_text int_of decode
              (λ p w. w) (λ p w q. q) rtp_lo rtp_hi packets t
              (ht, hd, refl, refl, (l, refl, refl, refl, inr refl)) in
          kept.4
