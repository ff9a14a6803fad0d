-- ===== src/Daemon/Tests.antt =====
-- The daemon of phraseguard/phraseguardd.py on small inputs.
use voip.Prelude.{
  ℕ, ◌*◌, ◌-◌, true, false, [], ◌∷◌, Option, none, some, leb, ltb, Text, Text-eq, codes, ◌≡◌, ◌↔◌,
  ◌⊎◌, refl, ◌||◌,
}
use voip.Metaphone.Loop.{is_empty}
use voip.Matcher.Phrases.{Tier, Match, same_tier}
use voip.Matcher.Tests.{hundredths, defaults, corpus, new_window, hit_at}
use voip.Matcher.Scorer.Tests.{scorer}
use voip.Actuator.Tests.{silent, fresh, enforcing, resolver, int_of, is_digit, one_call-IsLinked}
use voip.Record.Tests.{counters, floor_ip}
use voip.Record.Counters.Saved.{Saved, completed}
use voip.Matcher.Loading.{Outcome, LoadError}
use voip.Matcher.Loading.Tests.{held}
use voip.Tap.G711.{Bytes}
use voip.Tap.Sip.{StreamKey, new_tracker, second}
use voip.Tap.Run.{Tap, run as run_tap}
use voip.Tap.Tests.{tracker, demux, mean, seconds_of, plus, spoken}
use voip.Daemon.Hits.{Guard, handle_match}
use voip.Daemon.Audio.{PhraseGuard}
use voip.Daemon.Housekeeping.{Daemon, housekeeping}
use voip.Daemon.Lasting.{Kept, housekeeping-Kept}
use voip.Daemon.Enforced.{Quiet, Enforced, handle_match-Quiet}
use voip.Daemon.Shadow.{hear, stop_check, run-Enforced}
use voip.Daemon.Preflight.{Setup, problems, no_ips, problems_iff}

abbrev guard : Guard ℕ
guard = record {
  resolver = resolver;
  cli = fresh;
  hangup = enforcing;
  counters = counters;
  stats = record {
    utterances = 0;
    matches = 0;
    kills = 0;
    would_kill = 0;
    b_events = 0;
    unresolved = 0;
    duplicates = 0;
    refused_streams = 0;
  };
  recorded = [];
}

-- A near miss of a Tier A phrase.
abbrev near_miss : Match ℕ
near_miss = record (hit_at 0 2) { tier = Tier.a_near }

handle_match-Quiet_example :
    let (w, g, raises) =
      handle_match silent int_of is_digit scorer 10 near_miss none new_window guard in
    Quiet silent int_of is_digit guard g × (raises ≡ false)
unfolding same_tier
handle_match-Quiet_example =
    handle_match-Quiet silent int_of is_digit scorer 10 near_miss none new_window guard refl

abbrev setup : Setup
setup = record {
  enforce = true;
  customer_ips = codes "192.0.2.7" ∷ [];
  script_path = codes "/tmp/script";
  allow_heuristic = false;
  replayed = false;
  tcpdump = true;
  model_loaded = true;
}

problems_iff_example : (problems setup ≡ []) ↔ (
    (no_ips setup.customer_ips ≡ false)
    × ((setup.replayed || setup.tcpdump) ≡ true)
    × ((setup.enforce ≡ false)
        ⊎ ((is_empty setup.script_path ≡ true)
            × (setup.model_loaded ≡ true)
            × (setup.allow_heuristic ≡ false))))
problems_iff_example = problems_iff setup

abbrev daemon : PhraseGuard ℕ ℕ ℕ
daemon = record { guard = guard; sessions = []; counted_calls = [] }

-- A recogniser that hears the same phrase in all audio.
abbrev parrot : ℕ → Bytes → ℕ × Option Text
parrot n pcm = (n, some (codes "any desk"))

abbrev watching : Tap ℕ (PhraseGuard ℕ ℕ ℕ)
watching = record { tracker = tracker; demux = demux; stats = []; world = daemon; stopped = false }

run-Enforced_example :
    Enforced silent int_of is_digit guard
      (run_tap
        (hear silent int_of is_digit scorer hundredths defaults corpus parrot
          (λ p. 0)
          (λ p. 10)
          200
          new_window
          (λ p. [])
          (λ p. [])
          (λ p. false))
        (stop_check silent int_of is_digit scorer hundredths defaults corpus parrot
          (λ p. 0)
          (λ p. 10)
          200
          new_window
          (λ p. [])
          (λ p. [])
          (λ p. false))
        mean
        seconds_of
        plus
        leb
        ltb
        0
        (λ s. true)
        int_of
        (λ bytes. bytes)
        (λ p w. w)
        10000
        20000
        (spoken ∷ [])
        watching).world.guard
unfolding new_tracker
run-Enforced_example =
    run-Enforced silent int_of is_digit scorer hundredths defaults corpus parrot (λ p. 0) (λ p. 10)
      200 new_window (λ p. []) (λ p. []) (λ p. false) mean seconds_of plus leb ltb 0 (λ s. true)
      (λ bytes. bytes) 10000 20000 (spoken ∷ []) watching tt tt one_call-IsLinked

-- A session of a stream that the demux has closed.
abbrev closed_stream : StreamKey
closed_stream = record { src = floor_ip; sport = 4000; dst = floor_ip; dport = 10000; ssrc = 7 }

abbrev keeping : Daemon ℕ ℕ ℕ Saved
keeping = record {
  pipeline = record daemon {
    sessions =
        (closed_stream, record { rec = 0; win = new_window; since = 0; call_id = none }) ∷ [];
  };
  corpus = held;
  files = record { state = none; tmp = none };
  last_housekeeping = 0;
  reload_requested = true;
}

housekeeping-Kept_example :
    let r =
      housekeeping leb 0 mean
        (λ saved. saved)
        (20 * second)
        60
        none
        0
        (Outcome.refused LoadError.unreadable)
        completed
        tracker
        demux
        keeping in
    ((ltb (20 * second - 0) (15 * second) ≡ true) × (r ≡ ([], keeping)))
    ⊎ ((ltb (20 * second - 0) (15 * second) ≡ false)
        × Kept (λ saved. some saved) floor_ip 107 demux completed keeping r.1)
housekeeping-Kept_example =
    housekeeping-Kept leb 0 mean (λ saved. saved) (λ saved. some saved) floor_ip 107 (20 * second)
      60 none 0 (Outcome.refused LoadError.unreadable) completed tracker demux keeping
      (λ saved. refl) (tt, tt)
