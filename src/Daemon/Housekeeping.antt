-- ===== src/Daemon/Housekeeping.antt =====
-- phraseguard/phraseguardd.py: PhraseGuard.housekeeping and shutdown.
-- `now` is time.time(), and `alerted_at` the same as check_alerts reads it; `stat`, `after` and `outcome`
-- are what the reload of the corpus meets, and `how` how far save comes.
-- The events that it records are left out.
use voip.Prelude.{ℕ, ◌-◌, ◌*◌, Bool, false, List, [], map, Option, ltb, if◌then◌else◌, Text}
use voip.Matcher.Phrases.{Phrase}
use voip.Matcher.Loading.{Outcome, State, reload_if_changed}
use voip.Record.Counters.{CustomerCounters, check_alerts}
use voip.Record.Counters.Saved.{Saved, StateFiles, Saving, save}
use voip.Tap.Sip.{StreamKey, SipTracker, second}
use voip.Tap.Rtp.{RtpDemux}
use voip.Daemon.Audio.{PhraseGuard, prune}

pub record Daemon (Float R Score Content : Type 0) : Type 0 where
  pub pipeline : PhraseGuard Float R Score
  pub corpus : State
  pub files : StateFiles Content
  pub last_housekeeping : ℕ
  pub reload_requested : Bool

-- set(self.demux.streams)
unfoldable pub stream_keys : {Float : Type 0} → RtpDemux Float → List StreamKey
stream_keys demux = map (λ p. p.0) demux.streams

-- set(self.tracker.calls)
unfoldable pub call_ids : SipTracker → List Text
call_ids tracker = map (λ p. p.0) tracker.calls

abbrev pub with_counters :
    {Float R Score : Type 0}
    → CustomerCounters Float
    → PhraseGuard Float R Score
    → PhraseGuard Float R Score
with_counters c p = record p { guard = record p.guard { counters = c } }

module _ {Float R Score Content : Type 0} where
  abbrev pub counters_of : Daemon Float R Score Content → CustomerCounters Float
  counters_of d = d.pipeline.guard.counters

  module _ (leb_float : Float → Float → Bool) (zero_float : Float) (per_1k : ℕ → ℕ → Float)
      (dumps : Saved → Content) where
    -- The counters at the end of housekeeping.
    abbrev pub checked : ℕ → PhraseGuard Float R Score → List Text × CustomerCounters Float
    checked alerted_at p = check_alerts leb_float zero_float per_1k alerted_at p.guard.counters

    -- housekeeping: the customers alerted on, and the daemon behind it.
    unfoldable pub housekeeping :
        ℕ
        → ℕ
        → Option ℕ
        → ℕ
        → Outcome (List Phrase)
        → Saving Content
        → SipTracker
        → RtpDemux Float
        → Daemon Float R Score Content
        → List Text × Daemon Float R Score Content
    unfolding reload_if_changed stream_keys call_ids prune check_alerts save
    housekeeping now alerted_at stat after outcome how tracker demux d =
        let (done, corpus) = reload_if_changed stat after outcome d.reload_requested d.corpus in
        let p = prune (stream_keys demux) (call_ids tracker) d.pipeline in
        let (fired, c) = checked alerted_at p in
        if ltb (now - d.last_housekeeping) (15 * second) then ([], d) else (
          fired,
          record {
            pipeline = with_counters c p;
            corpus = corpus;
            files = save dumps how c d.files;
            last_housekeeping = now;
            reload_requested = false;
          },
        )

  -- shutdown, but for what it closes
  unfoldable pub shutdown :
      (Saved → Content)
      → Saving Content
      → Daemon Float R Score Content
      → Daemon Float R Score Content
  unfolding save
  shutdown dumps how d = record d {
    pipeline = record d.pipeline { sessions = [] };
    files = save dumps how (counters_of d) d.files;
  }
