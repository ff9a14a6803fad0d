-- ===== src/Daemon/Audio.antt =====
-- phraseguard/phraseguardd.py: PhraseGuard.on_audio and the pruning of housekeeping.
-- The recogniser is a parameter: a new one, and what one makes of audio. `clock` is time.time().
use voip.Prelude.{
  ℕ, suc, Bool, true, false, not, List, [], ◌∷◌, Option, none, some, if◌then◌else◌, Text, Text-eq,
  leb, ltb, length, member, set_add,
}
use voip.Prelude.Dict
use voip.Matcher.Phrases.{Match}
use voip.Matcher.Spans.{FloatOps, Thresholds}
use voip.Matcher.Scan.{Corpus, match}
use voip.Matcher.Window.{Window, add as add_text, accept}
use voip.Matcher.Scorer.{Scorer}
use voip.Record.Counters.{Kind, add as add_event}
use voip.Tap.G711.{Bytes}
use voip.Tap.Sip.{StreamKey, CallInfo}
use voip.Tap.Rtp.{StreamKey-eq, Stream}
use voip.Daemon.Hits.{Guard, Stats, source_of, handle_match}

pub record Session (R Score : Type 0) : Type 0 where
  pub rec : R
  pub win : Window Score
  pub since : ℕ
  pub call_id : Option Text

pub record PhraseGuard (Float R Score : Type 0) : Type 0 where
  pub guard : Guard Float
  pub sessions : List (StreamKey × Session R Score)
  pub counted_calls : List Text

-- CallWindow(window_s, context_words)
unfoldable pub new_window {ℓ} : {Score : Type ℓ} → ℕ → ℕ → ℕ → Window Score
new_window window_s context_words max_tokens = record {
  window_s = window_s;
  context_words = context_words;
  max_tokens = max_tokens;
  tokens = [];
  times = [];
  dropped = 0;
  hits = [];
  reported = [];
  fired_categories = [];
  b_events = 0;
}

-- The sessions of the streams that are left.
unfoldable pub live_sessions :
    {R Score : Type 0}
    → List StreamKey
    → List (StreamKey × Session R Score)
    → List (StreamKey × Session R Score)
unfolding member
live_sessions live [] = []
live_sessions live ((k, s) ∷ sessions) =
    let rest = live_sessions live sessions in if member k live then (k, s) ∷ rest else rest

unfoldable pub known_calls : List Text → List Text → List Text
unfolding member
known_calls calls [] = []
known_calls calls (c ∷ counted) =
    let rest = known_calls calls counted in if member c calls then c ∷ rest else rest

module _ {Float R Score : Type 0} where
  abbrev pub with_stats : (Stats → Stats) → PhraseGuard Float R Score → PhraseGuard Float R Score
  with_stats f p = record p { guard = record p.guard { stats = f p.guard.stats } }

  -- A call is counted once, with the first stream of it that gets a session.
  unfoldable pub count_call :
      ℕ → Option CallInfo → PhraseGuard Float R Score → PhraseGuard Float R Score
  unfolding source_of add_event set_add member
  count_call clock none p = p
  count_call clock (some c) p = if member c.call_id p.counted_calls then p else record p {
    counted_calls = set_add c.call_id p.counted_calls;
    guard = record p.guard {
      counters = add_event (source_of (some c)) (some Kind.calls) clock p.guard.counters;
    };
  }

  abbrev pub put_session :
      StreamKey → Session R Score → PhraseGuard Float R Score → PhraseGuard Float R Score
  put_session key s p = record p { sessions = Dict.put key s p.sessions }

  -- The pruning of housekeeping: sessions without a stream, and calls that are over.
  unfoldable pub prune :
      List StreamKey → List Text → PhraseGuard Float R Score → PhraseGuard Float R Score
  unfolding live_sessions known_calls
  prune live calls p = record p {
    sessions = live_sessions live p.sessions;
    counted_calls =
        if ltb 10000 (length p.counted_calls)
        then known_calls calls p.counted_calls
        else p.counted_calls;
  }

module _ {Float Score : Type 0} (run : ℕ → Text → Option Text) (int_of : Text → Option ℕ)
    (is_digit : ℕ → Bool) (scorer : Scorer) where
  -- The loop over the matches of one utterance; a span that was reported is only counted.
  unfoldable pub handle_all :
      ℕ
      → Option CallInfo
      → List (Match Score)
      → Window Score
      → Guard Float
      → Window Score × Guard Float × Bool
  unfolding handle_match accept
  handle_all clock call [] w g = (w, g, false)
  handle_all clock call (m ∷ ms) w g =
      let duplicate =
        handle_all clock call ms w
          (record g { stats = record g.stats { duplicates = suc g.stats.duplicates } }) in
      let (w', fresh) = accept w m in
      let (w'', g', raises) = handle_match run int_of is_digit scorer clock m call w' g in
      let more = handle_all clock call ms w'' g' in
      if not fresh then duplicate else if raises then (w'', g', true) else more

-- `since` and `call_id` of a session are set at its start, and read by nothing. A result `true` is an
-- exception.
module _ {Float R : Type 0} (run : ℕ → Text → Option Text) (int_of : Text → Option ℕ)
    (is_digit : ℕ → Bool) (scorer : Scorer) (ops : FloatOps) (th : Thresholds (FloatOps.Float ops))
    (corpus : Corpus) (accept_pcm : R → Bytes → R × Option Text) where
  -- What is said on a stream that has a session.
  unfoldable pub hear_session :
      ℕ
      → StreamKey
      → Bytes
      → Option CallInfo
      → Session R (FloatOps.Float ops)
      → PhraseGuard Float R (FloatOps.Float ops)
      → PhraseGuard Float R (FloatOps.Float ops) × Bool
  unfolding handle_all match add_text
  hear_session clock key pcm call s p =
      let (rec, out) = accept_pcm s.rec pcm in
      elim out [
        | none ↦ (put_session key (record s { rec = rec }) p, false)
        | some text ↦
            let p' = with_stats (λ t. record t { utterances = suc t.utterances }) p in
            let (w, first_new) = add_text s.win text clock in
            let (w', g, raises) =
              handle_all run int_of is_digit scorer clock call
                (match ops th corpus w.tokens first_new false) w p'.guard in
            (put_session key (record s { rec = rec; win = w' }) (record p' { guard = g }), raises)
      ]

  -- `new_rec` is a recogniser from the factory, `window` an empty window.
  unfoldable pub on_audio :
      R
      → ℕ
      → ℕ
      → Window (FloatOps.Float ops)
      → Stream Float
      → Bytes
      → Option CallInfo
      → PhraseGuard Float R (FloatOps.Float ops)
      → PhraseGuard Float R (FloatOps.Float ops) × Bool
  unfolding hear_session count_call Dict.get
  on_audio new_rec clock max_streams window stream pcm call p =
      elim (Dict.get stream.key p.sessions) [
        | some s ↦ hear_session clock stream.key pcm call s p
        | none ↦
            (let s : Session R (FloatOps.Float ops) = record {
              rec = new_rec;
              win = window;
              since = 0;
              call_id = stream.call_id;
            } in
              if leb max_streams (length p.sessions)
              then (with_stats (λ t. record t { refused_streams = suc t.refused_streams }) p, false)
              else hear_session clock stream.key pcm call s
                  (count_call clock call (put_session stream.key s p)))
      ]
