-- ===== src/Record/Counters/Restart.antt =====
-- phraseguard/record.py: what a restart of the daemon keeps of the counters.
use voip.Prelude.{
  ℕ, ◌-◌, ◌≡◌, refl, sym, ap, ◌∙◌, true, false, List, [], ◌∷◌, ◌++◌, Option, some, arith, leb,
  if◌then◌else◌, Text, Text-eq, Bool-cases, inl, inr, All, Pairwise, All-zip, subst, same_text_iff,
}
use voip.Prelude.Dict
use voip.Prelude.Keys.{eqb}
use voip.Record.Counters.{Row, CustomerCounters, since_cutoff, rows_of}
use voip.Record.Counters.Trim.{rows_of-put}
use voip.Record.Counters.Saved.{
  Saved, StateFiles, Saving, no_directory, no_file, cut_short, no_replace, completed, recent_rows,
  keep_rows, load_events, or_empty, with_state, load_saved, load, start, state_of, save,
}

-- No two entries have one key.
abbrev pub Distinct : List (Text × List Row) → Type 0
Distinct events = Pairwise (λ p q. eqb p.0 q.0 ≡ false) events

-- What load keeps of the rows is what _trim keeps.
recent_rows-since_cutoff :
    (window_s now : ℕ) (rows : List Row)
    → recent_rows window_s now rows ≡ since_cutoff (now - window_s) rows
unfolding recent_rows since_cutoff
recent_rows-since_cutoff window_s now [] = refl
recent_rows-since_cutoff window_s now (r ∷ rs) =
    let same : leb (now - r.0) window_s ≡ leb (now - window_s) r.0 = ground arith in
    rw (recent_rows, since_cutoff, same, recent_rows-since_cutoff window_s now rs) refl

rows_of-cons :
    (ip j : Text) (rows : List Row) (events : List (Text × List Row))
    → rows_of ip ((j, rows) ∷ events) ≡ (if eqb j ip then rows else rows_of ip events)
unfolding rows_of Dict.get
rows_of-cons ip j rows events = elim (Bool-cases (eqb j ip)) [
  | inl same ↦ rw (rows_of, Dict.get, same) refl
  | inr other ↦ rw (rows_of, Dict.get, other) refl
]

-- An address that had no rows has those that load kept.
rows_of-keep_rows :
    (ip j : Text) (rows : List Row) (events : List (Text × List Row))
    → rows_of j events ≡ []
    → rows_of ip (keep_rows j rows events) ≡ (if eqb j ip then rows else rows_of ip events)
unfolding keep_rows
rows_of-keep_rows ip j [] events new = elim (Bool-cases (eqb j ip)) [
  | inl same ↦
      subst (λ i. rows_of i events ≡ (if eqb j ip then [] else rows_of ip events))
        ((same_text_iff j ip).0 same) (rw same new)
  | inr other ↦ rw other refl
]
rows_of-keep_rows ip j (r ∷ rs) events new = rows_of-put j ip (r ∷ rs) events

-- An address that is no key has no rows.
rows_of_missing :
    (ip j : Text) (events : List (Text × List Row))
    → eqb j ip ≡ true
    → All (λ q. eqb j q.0 ≡ false) events
    → rows_of ip events ≡ []
unfolding rows_of Dict.get
rows_of_missing ip j [] same h = refl
rows_of_missing ip j ((k, rows) ∷ events) same h =
    let moved : eqb k ip ≡ false =
      ground (arith, same_text_iff j ip, same_text_iff k ip, same_text_iff j k, same, h.0) in
    rw (rows_of-cons ip k rows events, moved) (rows_of_missing ip j events same h.1)

append_none : (rows : List Row) → rows ++ [] ≡ rows
append_none [] = refl
append_none (r ∷ rs) = ap (λ x. r ∷ x) (append_none rs)

-- The addresses that are still to load have no rows yet.
abbrev Unloaded : List (Text × List Row) → List (Text × List Row) → Type 0
Unloaded events more = All (λ q. rows_of q.0 events ≡ []) more

keep_rows-Unloaded :
    (j : Text) (rows : List Row) (events more : List (Text × List Row))
    → rows_of j events ≡ []
    → All (λ q. eqb j q.0 ≡ false) more
    → Unloaded events more
    → Unloaded (keep_rows j rows events) more
keep_rows-Unloaded j rows events more new others hs =
    All-zip (λ q. eqb j q.0 ≡ false) (λ q. rows_of q.0 events ≡ [])
      (λ q. rows_of q.0 (keep_rows j rows events) ≡ []) more
      (λ q other h. rows_of-keep_rows q.0 j rows events new ∙ rw other h) others hs

-- One round of load: the rows of its address, which had none, and those of the others.
load_round :
    (ip j : Text) (cutoff : ℕ) (rows kept : List Row) (events more : List (Text × List Row))
    → kept ≡ since_cutoff cutoff rows
    → rows_of j events ≡ []
    → All (λ q. eqb j q.0 ≡ false) more
    → rows_of ip (keep_rows j kept events) ++ since_cutoff cutoff (rows_of ip more)
      ≡ rows_of ip events ++ since_cutoff cutoff (rows_of ip ((j, rows) ∷ more))
unfolding since_cutoff
load_round ip j cutoff rows kept events more e new others = elim (Bool-cases (eqb j ip)) [
  | inl same ↦
      let here : rows_of ip events ≡ [] =
        subst (λ i. rows_of i events ≡ []) ((same_text_iff j ip).0 same) new in
      rw
        (
          rows_of-keep_rows ip j kept events new,
          rows_of-cons ip j rows more,
          same,
          here,
          rows_of_missing ip j more same others,
        )
        (append_none kept ∙ e)
  | inr other ↦ rw (rows_of-keep_rows ip j kept events new, rows_of-cons ip j rows more, other) refl
]

load_events-rows :
    (ip : Text) (window_s now : ℕ) (saved events : List (Text × List Row))
    → Distinct saved
    → Unloaded events saved
    → rows_of ip (load_events window_s now saved events)
      ≡ rows_of ip events ++ since_cutoff (now - window_s) (rows_of ip saved)
unfolding load_events since_cutoff rows_of Dict.get
load_events-rows ip window_s now [] events apart hs = sym (append_none (rows_of ip events))
load_events-rows ip window_s now ((j, rows) ∷ more) events apart hs =
    let kept = recent_rows window_s now rows in
    load_events-rows ip window_s now more (keep_rows j kept events) apart.1
      (keep_rows-Unloaded j kept events more hs.0 apart.0 hs.1)
    ∙ load_round ip j (now - window_s) rows kept events more
        (recent_rows-since_cutoff window_s now rows) hs.0 apart.0

none_loaded : (saved : List (Text × List Row)) → Unloaded [] saved
unfolding rows_of Dict.get
none_loaded [] = tt
none_loaded (q ∷ saved) = (refl, none_loaded saved)

-- What save leaves, by how far it came: behind a completed one a restart finds the rows of each
-- address that _trim would keep, and the times of the alerts; else the state file is as it was.
abbrev pub Survives :
    {Float Content : Type 0}
    → (Content → Option Saved)
    → Text
    → ℕ
    → CustomerCounters Float
    → StateFiles Content
    → StateFiles Content
    → Saving Content
    → Type 0
Survives loads ip now c before after completed =
    (rows_of ip (start loads after now c).events
      ≡ since_cutoff (now - c.window_s) (rows_of ip c.events))
    × ((start loads after now c).last_alert ≡ c.last_alert)
Survives loads ip now c before after _ = after.state ≡ before.state

-- Where json.load reads what json.dump wrote, a save that completes brings each customer's rows of the
-- window and the times of its alerts over a restart, and one that raises anywhere leaves the state file
-- as it was.
pub save-Survives :
    {Float Content : Type 0} (dumps : Saved → Content) (loads : Content → Option Saved)
    (how : Saving Content) (ip : Text) (now : ℕ) (c : CustomerCounters Float)
    (files : StateFiles Content)
    → ((saved : Saved) → loads (dumps saved) ≡ some saved)
    → Distinct c.events
    → Survives loads ip now c files (save dumps how c files) how
unfolding save start load load_saved or_empty with_state state_of since_cutoff rows_of Dict.get
save-Survives dumps loads no_directory ip now c files json apart = refl
save-Survives dumps loads no_file ip now c files json apart = refl
save-Survives dumps loads (cut_short part) ip now c files json apart = refl
save-Survives dumps loads no_replace ip now c files json apart = refl
save-Survives dumps loads completed ip now c files json apart =
    rw (json (state_of c))
      (load_events-rows ip c.window_s now c.events [] apart (none_loaded c.events), refl)
