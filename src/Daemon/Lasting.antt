-- ===== src/Daemon/Lasting.antt =====
-- phraseguard/phraseguardd.py: what housekeeping leaves in memory and on the disk.
use voip.Prelude.{
  ℕ, ◌-◌, ◌*◌, ◌≡◌, ◌⊎◌, inl, inr, refl, true, false, Bool, List, [], ◌∷◌, Option, some, ltb, Text,
  member, All, Bool-cases,
}
use voip.Matcher.Phrases.{Phrase}
use voip.Matcher.Loading.{Outcome}
use voip.Record.Counters.Saved.{Saved, Saving}
use voip.Record.Counters.Restart.{Distinct, Survives, save-Survives}
use voip.Record.Counters.Apart.{check_alerts-Distinct}
use voip.Tap.Sip.{StreamKey, SipTracker, second}
use voip.Tap.Rtp.{StreamKey-eq, RtpDemux}
use voip.Daemon.Audio.{Session, live_sessions, prune}
use voip.Daemon.Housekeeping.{Daemon, stream_keys, call_ids, counters_of, checked, housekeeping}

live_sessions-All :
    {R Score : Type 0} (live : List StreamKey) (sessions : List (StreamKey × Session R Score))
    → All (λ p. member p.0 live ≡ true) (live_sessions live sessions)
unfolding live_sessions
live_sessions-All live [] = tt
live_sessions-All live ((k, s) ∷ sessions) = elim (Bool-cases (member k live)) [
  | inl known ↦ rw (live_sessions, known) (known, live_sessions-All live sessions)
  | inr gone ↦ rw (live_sessions, gone) (live_sessions-All live sessions)
]

module _ {Float R Score Content : Type 0} where
  -- The daemon behind a round of housekeeping: each session is of a stream of the demux, the hangup is
  -- as it was, no reload is requested, and the state file brings the counters over a restart.
  abbrev pub Kept :
      (Content → Option Saved)
      → Text
      → ℕ
      → RtpDemux Float
      → Saving Content
      → Daemon Float R Score Content
      → Daemon Float R Score Content
      → Type 0
  Kept loads ip later demux how d d' =
      All (λ p. member p.0 (stream_keys demux) ≡ true) d'.pipeline.sessions
      × (d'.pipeline.guard.hangup ≡ d.pipeline.guard.hangup)
      × (d'.reload_requested ≡ false)
      × Survives loads ip later (counters_of d') d.files d'.files how

  module _ (leb_float : Float → Float → Bool) (zero_float : Float) (per_1k : ℕ → ℕ → Float)
      (dumps : Saved → Content) where
    -- A round of housekeeping within 15 seconds of the last changes nothing. Else, where json.load reads
    -- what json.dump wrote, only sessions of streams that the demux still has are kept, the hangup is as
    -- it was, no reload stays requested, and the state file is as it was where the save raised, and else
    -- brings the rows of the window and the alerts of the counters over a restart.
    pub housekeeping-Kept :
        (loads : Content → Option Saved) (ip : Text) (later now alerted_at : ℕ) (stat : Option ℕ)
        (after : ℕ) (outcome : Outcome (List Phrase)) (how : Saving Content) (tracker : SipTracker)
        (demux : RtpDemux Float) (d : Daemon Float R Score Content)
        → ((saved : Saved) → loads (dumps saved) ≡ some saved)
        → Distinct (counters_of d).events
        → let r =
            housekeeping leb_float zero_float per_1k dumps now alerted_at stat after outcome how
              tracker demux d in
          ((ltb (now - d.last_housekeeping) (15 * second) ≡ true) × (r ≡ ([], d)))
          ⊎ ((ltb (now - d.last_housekeeping) (15 * second) ≡ false)
              × Kept loads ip later demux how d r.1)
    unfolding housekeeping prune
    housekeeping-Kept loads ip later now alerted_at stat after outcome how tracker demux d json
          apart =
        elim (Bool-cases (ltb (now - d.last_housekeeping) (15 * second))) [
          | inl early ↦ inl (early, rw (housekeeping, early) refl)
          | inr due ↦
              let p = prune (stream_keys demux) (call_ids tracker) d.pipeline in
              let c = (checked leb_float zero_float per_1k dumps alerted_at p).1 in
              let kept =
                check_alerts-Distinct leb_float zero_float per_1k alerted_at (counters_of d)
                  apart in
              inr (
                due,
                rw (housekeeping, due)
                    (
                      live_sessions-All (stream_keys demux) d.pipeline.sessions,
                      refl,
                      refl,
                      save-Survives dumps loads how ip later c d.files json kept,
                    ),
              )
        ]
