-- ===== src/Record/Counters.antt =====
-- `CustomerCounters` of phraseguard/record.py: what is counted per customer IP, and the alerts.
-- Rates are floats, a parameter: `per_1k k n` is round(1000.0 * k / n, 3) for a positive `n`.
pub mod Trim
pub mod Alerts
pub mod Saved
pub mod Restart
pub mod Apart
use voip.Prelude.{
  ℕ, zero, suc, ◌+◌, ◌-◌, Bool, true, false, ◌&&◌, ◌||◌, not, List, [], ◌∷◌, ◌++◌, Option, none,
  some, ltb, leb, if◌then◌else◌, Text, Text-eq,
}
use voip.Prelude.Dict
use voip.Metaphone.Loop.{is_empty}

-- KINDS
pub data Kind : Type 0 where
  calls kill near b_event : Kind

abbrev pub Row : Type 0
Row = ℕ × Kind

pub record CustomerCounters (Float : Type 0) : Type 0 where
  pub window_s : ℕ
  pub alert_kill_rate : Float
  pub alert_b_rate : Float
  pub alert_min_calls : ℕ
  pub alert_interval_s : ℕ
  pub events : List (Text × List Row)
  pub last_alert : List (Text × ℕ)

-- [r for r in rows if r[0] >= cutoff]
unfoldable pub since_cutoff : ℕ → List Row → List Row
since_cutoff cutoff [] = []
since_cutoff cutoff (r ∷ rs) =
    let rest = since_cutoff cutoff rs in if leb cutoff r.0 then r ∷ rest else rest

-- The rows that _trim leaves: untouched where the first is recent enough.
unfoldable pub trim_rows : ℕ → List Row → List Row
trim_rows cutoff [] = []
trim_rows cutoff (r ∷ rs) = if leb cutoff r.0 then r ∷ rs else since_cutoff cutoff (r ∷ rs)

-- self.events.get(ip) or []
unfoldable pub rows_of : Text → List (Text × List Row) → List Row
rows_of ip events = elim (Dict.get ip events) [ none ↦ [] | some rows ↦ rows ]

-- _trim on the events
unfoldable pub trim : ℕ → Text → ℕ → List (Text × List Row) → List (Text × List Row)
trim window_s ip now events = elim (Dict.get ip events) [
  | none ↦ events
  | some rows ↦ Dict.put ip (trim_rows (now - window_s) rows) events
]

unfoldable pub same_kind : Kind → Kind → Bool
same_kind calls calls = true
same_kind kill kill = true
same_kind near near = true
same_kind b_event b_event = true
same_kind _ _ = false

-- c[k]
unfoldable pub count : Kind → List Row → ℕ
count k [] = 0
count k (r ∷ rs) = let rest = count k rs in if same_kind k r.1 then suc rest else rest

-- The trimming of `snapshot`, IP by IP.
unfoldable pub trim_all :
    ℕ → ℕ → List (Text × List Row) → List (Text × List Row) → List (Text × List Row)
trim_all window_s now [] events = events
trim_all window_s now ((ip, rows) ∷ ips) events =
    trim_all window_s now ips (trim window_s ip now events)

-- self.last_alert.get(ip, 0)
unfoldable pub last_of : Text → List (Text × ℕ) → ℕ
last_of ip last = elim (Dict.get ip last) [ none ↦ 0 | some t ↦ t ]

module _ {Float : Type 0} where
  unfoldable pub with_events :
      CustomerCounters Float → List (Text × List Row) → CustomerCounters Float
  with_events c events = record {
    window_s = c.window_s;
    alert_kill_rate = c.alert_kill_rate;
    alert_b_rate = c.alert_b_rate;
    alert_min_calls = c.alert_min_calls;
    alert_interval_s = c.alert_interval_s;
    events = events;
    last_alert = c.last_alert;
  }

  unfoldable pub alerted : CustomerCounters Float → Text → ℕ → CustomerCounters Float
  alerted c ip now = record {
    window_s = c.window_s;
    alert_kill_rate = c.alert_kill_rate;
    alert_b_rate = c.alert_b_rate;
    alert_min_calls = c.alert_min_calls;
    alert_interval_s = c.alert_interval_s;
    events = c.events;
    last_alert = Dict.put ip now c.last_alert;
  }

  -- `none` is a kind that is not one of KINDS.
  unfoldable pub add : Text → Option Kind → ℕ → CustomerCounters Float → CustomerCounters Float
  add ip none now c = c
  add ip (some kind) now c =
      if is_empty ip
      then c
      else with_events c (
          trim c.window_s ip now (Dict.put ip (rows_of ip c.events ++ ((now, kind) ∷ [])) c.events))

  -- now - self.last_alert.get(ip, 0) < self.alert_interval_s
  unfoldable pub too_soon : CustomerCounters Float → Text → ℕ → Bool
  too_soon c ip now = ltb now (last_of ip c.last_alert + c.alert_interval_s)

module _ {Float : Type 0} (leb_float : Float → Float → Bool) (zero_float : Float)
    (per_1k : ℕ → ℕ → Float) where
  -- c["kill_per_1k"] and c["b_per_1k"]
  unfoldable pub rate : ℕ → ℕ → Float
  rate k zero = zero_float
  rate k (suc n) = per_1k k (suc n)

  -- The guards of check_alerts on one IP, before the limit on repeats.
  unfoldable pub over : CustomerCounters Float → List Row → Bool
  over c rows =
      let n = count Kind.calls rows in
      leb c.alert_min_calls n
      && (leb_float c.alert_kill_rate (rate (count Kind.kill rows) n)
          || leb_float c.alert_b_rate (rate (count Kind.b_event rows) n))

  unfoldable pub alerts :
      ℕ → List (Text × List Row) → CustomerCounters Float → List Text × CustomerCounters Float
  alerts now [] c = ([], c)
  alerts now ((ip, rows) ∷ snapshot) c =
      if over c rows && not (too_soon c ip now)
      then (let (fired, c') = alerts now snapshot (alerted c ip now) in (ip ∷ fired, c'))
      else alerts now snapshot c

  unfoldable pub check_alerts : ℕ → CustomerCounters Float → List Text × CustomerCounters Float
  check_alerts now c =
      let c' = with_events c (trim_all c.window_s now c.events c.events) in alerts now c'.events c'
