-- ===== src/Actuator/Exact.antt =====
-- Probing and resolving: the Call-IDs stay true, and one look-up forks a bounded number of times.
use voip.Prelude.{
  ℕ, suc, ◌≤◌, ◌<◌, ◌-◌, ◌≡◌, refl, ◌∙◌, true, false, List, [], ◌∷◌, ◌++◌, Option, none, some,
  arith, leb, leb-false, if◌then◌else◌, Text, codes, same_text, same_text-eq, same_text_iff,
  Text-eq, Yields-some, Bool-cases, Option-cases, inl, inr,
}
use voip.Prelude.Dict
use voip.Metaphone.Loop.{is_empty}
use voip.Actuator.Lines.{split_on}
use voip.Actuator.Cli.{Cli, rx}
use voip.Actuator.Asked.{Asks, is_hangup, rx-Asks}
use voip.Actuator.Channels.{Channel, ChannelTable}
use voip.Actuator.Probe.{
  probe, probe_each, settle, read_answer, with_channel, with_call_id, count_failure, marked,
  find_call_id, is_foreign, at_limit, max_probe_misses,
}
use voip.Actuator.Live.{Linked, IsLinked, put-Linked}

same_text_self : (a : Text) → same_text a a ≡ true
same_text_self a = (same_text_iff a a).1 refl

-- A channel that was not probed has no Call-ID in the table: it may be rewritten at will.
unprobed-Linked :
    (table : ChannelTable) (name : Text) (ch new : Channel)
    → Dict.get name table.channels ≡ some ch
    → ch.probed ≡ false
    → IsLinked table
    → Linked (Dict.put name new table.channels) table.by_call_id
unprobed-Linked table name ch new here unprobed l =
    put-Linked table.channels table.by_call_id name new
      (λ old there probed. absurd (clash old there probed)) l
  where
    clash : (old : Channel) → Dict.get name table.channels ≡ some old → old.probed ≡ true → ⊥
    clash old there probed = cc

found-Linked :
    (channels : List (Text × Channel)) (ids : List (Text × Text)) (name id : Text) (new : Channel)
    → Dict.get name channels ≡ some new
    → new.call_id ≡ some id
    → new.probed ≡ true
    → is_empty id ≡ false
    → Linked channels ids
    → Linked channels (Dict.put id name ids)
found-Linked channels ids name id new here carried probed ne l j n h =
    elim (Bool-cases (same_text id j)) [
      | inl same ↦
          let e = same_text-eq id j same in
          let named : some name ≡ some n = ground (arith, Dict.get-put id j name ids, same, h) in
          record { ch = new; listed = cc; carried = cc; was_probed = probed; nonempty = cc }
      | inr other ↦ l j n (ground (arith, Dict.get-put id j name ids, other, h))
    ]

missed-IsLinked :
    (name : Text) (ch : Channel) (found : Option Text) (table : ChannelTable)
    → Dict.get name table.channels ≡ some ch
    → ch.probed ≡ false
    → IsLinked table
    → IsLinked (
        if leb max_probe_misses (suc ch.probe_misses)
        then count_failure (with_channel name (marked ch found true (suc ch.probe_misses)) table)
        else with_channel name (marked ch found ch.probed (suc ch.probe_misses)) table)
unfolding with_channel count_failure
missed-IsLinked name ch found table here unprobed l =
    elim (Bool-cases (leb max_probe_misses (suc ch.probe_misses))) [
      | inl last ↦ rw last (
          unprobed-Linked table name ch (marked ch found true (suc ch.probe_misses)) here unprobed
            l)
      | inr again ↦ rw again (
          unprobed-Linked table name ch (marked ch found ch.probed (suc ch.probe_misses)) here
            unprobed l)
    ]

settle-IsLinked :
    (name : Text) (ch : Channel) (found : Option Text) (table : ChannelTable)
    → Dict.get name table.channels ≡ some ch
    → ch.probed ≡ false
    → IsLinked table
    → IsLinked (settle name ch found table)
unfolding settle with_call_id with_channel marked is_empty
settle-IsLinked name ch (some (c ∷ id)) table here unprobed l =
    let new = marked ch (some (c ∷ id)) true ch.probe_misses in
    found-Linked (Dict.put name new table.channels) table.by_call_id name (c ∷ id) new
      (ground (arith, Dict.get-put name name new table.channels, same_text_self name)) refl refl
      refl (unprobed-Linked table name ch new here unprobed l)
settle-IsLinked name ch none table here unprobed l =
    missed-IsLinked name ch none table here unprobed l
settle-IsLinked name ch (some []) table here unprobed l =
    missed-IsLinked name ch (some []) table here unprobed l

read_answer-IsLinked :
    (name : Text) (ch : Channel) (out : Text) (table : ChannelTable)
    → Dict.get name table.channels ≡ some ch
    → ch.probed ≡ false
    → IsLinked table
    → IsLinked (read_answer name ch out table)
unfolding read_answer
read_answer-IsLinked name ch [] table here unprobed l = l
read_answer-IsLinked name ch (c ∷ out) table here unprobed l =
    settle-IsLinked name ch (find_call_id ch.call_id false (split_on 10 (c ∷ out))) table here
      unprobed l

-- The table is true, at most so many commands were sent, and none of them asks for a hangup.
abbrev pub Within : {A : Type 0} → ℕ → Cli → ChannelTable × Cli × A → Type 0
Within n cli r = IsLinked r.0 × Asks n cli r.1

pub widen :
    {A : Type 0} (k n : ℕ) (cli cli' : Cli) (r : ChannelTable × Cli × A)
    → Asks 1 cli cli'
    → suc n ≤ k
    → Within n cli' r
    → Within k cli r
widen k n cli cli' r (calls, same) fits (l, (more, same')) =
    (l, (omega (arith, calls, more, fits), same' ∙ same))

module _ (run : ℕ → Text → Option Text) where
  probe-Within :
      (name : Text) (table : ChannelTable) (cli : Cli)
      → IsLinked table
      → Within 1 cli (probe run name table cli)
  unfolding probe is_hangup
  probe-Within name table cli l = elim (Option-cases (Dict.get name table.channels)) [
    | inl absent ↦ rw (probe, absent) (l, (omega arith, refl))
    | inr (ch, here) ↦ elim (Bool-cases ch.probed) [
      | inl done ↦ rw (probe, here, done) (l, (omega arith, refl))
      | inr unprobed ↦ elim (Option-cases (rx run cli (codes "core show channel " ++ name))) [
        | inl raised ↦ rw (probe, here, unprobed, raised) (l, (omega arith, refl))
        | inr ((out, cli'), got) ↦
            let asked =
              Yields-some (λ r. Asks 1 cli r.1) (rx run cli (codes "core show channel " ++ name))
                (out, cli') (rx-Asks run cli (codes "core show channel " ++ name) refl) got in
            rw (probe, here, unprobed, got)
              (read_answer-IsLinked name ch out table here unprobed l, asked)
      ]
    ]
  ]

  below : (n limit : ℕ) → at_limit (some (suc limit)) (suc n) ≡ false → suc n < suc limit
  unfolding at_limit
  below n limit h = omega (arith, leb-false (suc limit) (suc n) h)

  foreign-IsLinked :
      (name : Text) (ch : Channel) (table : ChannelTable)
      → Dict.get name table.channels ≡ some ch
      → ch.probed ≡ false
      → IsLinked table
      → IsLinked (with_channel name (marked ch ch.call_id true ch.probe_misses) table)
  unfolding with_channel
  foreign-IsLinked name ch table here unprobed l =
      unprobed-Linked table name ch (marked ch ch.call_id true ch.probe_misses) here unprobed l

  -- From a count, the loop sends what is left of the limit.
  pub probe_each-Within :
      (limit n : ℕ) (names : List Text) (table : ChannelTable) (cli : Cli)
      → n < suc limit
      → IsLinked table
      → Within (suc limit - n) cli (probe_each run (some (suc limit)) names n table cli)
  unfolding probe_each is_foreign marked
  probe_each-Within limit n [] table cli small l = (l, (omega arith, refl))
  probe_each-Within limit n (name ∷ names) table cli small l =
      elim (Option-cases (Dict.get name table.channels)) [
        | inl absent ↦ rw (probe_each, absent) (probe_each-Within limit n names table cli small l)
        | inr (ch, here) ↦ elim (Bool-cases ch.probed) [
          | inl done ↦
              rw (probe_each, here, done) (probe_each-Within limit n names table cli small l)
          | inr unprobed ↦ elim (Bool-cases (is_foreign table ch)) [
            | inl foreign ↦
                rw (probe_each, here, unprobed, foreign)
                  (probe_each-Within limit n names
                    (with_channel name (marked ch ch.call_id true ch.probe_misses) table) cli small
                    (foreign-IsLinked name ch table here unprobed l))
            | inr ours ↦
                let (table', cli', raises) = probe run name table cli in
                let (l', (calls, same)) = probe-Within name table cli l in
                let stopped : Within (suc limit - n) cli (table', cli', tt) =
                  (l', (omega (arith, calls, small), same)) in
                rw (probe_each, here, unprobed, ours)
                  (elim (Bool-cases raises) [
                    | inl raised ↦ rw raised stopped
                    | inr fine ↦ elim (Bool-cases (at_limit (some (suc limit)) (suc n))) [
                      | inl full ↦ rw (fine, full) stopped
                      | inr more ↦
                          rw (fine, more)
                            (widen (suc limit - n) (suc limit - suc n) cli cli'
                              (probe_each run (some (suc limit)) names (suc n) table' cli')
                              (calls, same) (omega (arith, small))
                              (probe_each-Within limit (suc n) names table' cli'
                                (below n limit more) l'))
                    ]
                  ])
          ]
        ]
      ]
