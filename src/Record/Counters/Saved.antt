-- ===== src/Record/Counters/Saved.antt =====
-- `CustomerCounters.save` and `load` of phraseguard/record.py: the state file of the counters.
-- The JSON library is a parameter: `dumps` is what json.dump writes of the state, and `loads` what
-- json.load reads of it, `none` where it raises. A JSON file of another shape is left out.
use voip.Prelude.{ℕ, ◌-◌, List, [], ◌∷◌, Option, none, some, leb, if◌then◌else◌, Text, Text-eq}
use voip.Prelude.Dict
use voip.Record.Counters.{Row, CustomerCounters}

-- The keys "events" and "last_alert" of the file; a key that is missing is `none`.
pub record Saved : Type 0 where
  pub events : Option (List (Text × List Row))
  pub last_alert : Option (List (Text × ℕ))

-- The state file and the file behind it with the suffix .tmp; `none` where there is none.
pub record StateFiles (Content : Type 0) : Type 0 where
  pub state : Option Content
  pub tmp : Option Content

-- How far save comes: what raises in it, with what was written by then.
pub data Saving (Content : Type 0) : Type 0 where
  no_directory : Saving Content
  no_file : Saving Content
  cut_short : Content → Saving Content
  no_replace : Saving Content
  completed : Saving Content

-- [(float(t), k) for t, k in rows if now - float(t) <= self.window_s]
unfoldable pub recent_rows : ℕ → ℕ → List Row → List Row
recent_rows window_s now [] = []
recent_rows window_s now (r ∷ rs) =
    let rest = recent_rows window_s now rs in if leb (now - r.0) window_s then r ∷ rest else rest

-- if keep: self.events[ip] = keep
unfoldable pub keep_rows : Text → List Row → List (Text × List Row) → List (Text × List Row)
unfolding Dict.put
keep_rows ip [] events = events
keep_rows ip (r ∷ rs) events = Dict.put ip (r ∷ rs) events

-- The loop of load.
unfoldable pub load_events :
    ℕ → ℕ → List (Text × List Row) → List (Text × List Row) → List (Text × List Row)
unfolding recent_rows keep_rows
load_events window_s now [] events = events
load_events window_s now ((ip, rows) ∷ more) events =
    load_events window_s now more (keep_rows ip (recent_rows window_s now rows) events)

-- `d or {}`
unfoldable pub or_empty {ℓ} : {A : Type ℓ} → Option (List A) → List A
or_empty none = []
or_empty (some d) = d

module _ {Float : Type 0} where
  unfoldable pub with_state :
      CustomerCounters Float → List (Text × List Row) → List (Text × ℕ) → CustomerCounters Float
  with_state c events last_alert = record {
    window_s = c.window_s;
    alert_kill_rate = c.alert_kill_rate;
    alert_b_rate = c.alert_b_rate;
    alert_min_calls = c.alert_min_calls;
    alert_interval_s = c.alert_interval_s;
    events = events;
    last_alert = last_alert;
  }

  unfoldable pub load_saved : ℕ → Option Saved → CustomerCounters Float → CustomerCounters Float
  unfolding load_events or_empty with_state
  load_saved now none c = c
  load_saved now (some saved) c =
      with_state c (load_events c.window_s now (or_empty saved.events) c.events)
        (or_empty saved.last_alert)

  unfoldable pub state_of : CustomerCounters Float → Saved
  state_of c = record { events = some c.events; last_alert = some c.last_alert }

module _ {Float Content : Type 0} where
  -- load
  unfoldable pub load :
      (Content → Option Saved)
      → StateFiles Content
      → ℕ
      → CustomerCounters Float
      → CustomerCounters Float
  unfolding load_saved
  load loads files now c = elim files.state [ none ↦ c | some text ↦ load_saved now (loads text) c ]

  -- __init__, with the settings of `c`
  unfoldable pub start :
      (Content → Option Saved)
      → StateFiles Content
      → ℕ
      → CustomerCounters Float
      → CustomerCounters Float
  unfolding load with_state
  start loads files now c = load loads files now (with_state c [] [])

  -- save
  unfoldable pub save :
      (Saved → Content)
      → Saving Content
      → CustomerCounters Float
      → StateFiles Content
      → StateFiles Content
  unfolding state_of
  save dumps no_directory c files = files
  save dumps no_file c files = files
  save dumps (cut_short part) c files = record { state = files.state; tmp = some part }
  save dumps no_replace c files = record { state = files.state; tmp = some (dumps (state_of c)) }
  save dumps completed c files = record { state = some (dumps (state_of c)); tmp = none }
