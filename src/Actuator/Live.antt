-- ===== src/Actuator/Live.antt =====
-- Each Call-ID of the table leads to a live channel that carries it.
use voip.Prelude.{
  ℕ, ◌+◌, ◌≡◌, refl, ap, ◌∙◌, Bool, true, false, not, ◌&&◌, ◌||◌, List, [], ◌∷◌, Option, none, some,
  arith, ltb, length, Text, codes, same_text, same_text_iff, same_text-eq, Text-eq, member,
  Bool-cases, Option-cases, inl, inr,
}
use voip.Prelude.Dict
use voip.Metaphone.Loop.{is_empty}
use voip.Actuator.Lines.{strip, split_on, has_char, starts_with}
use voip.Actuator.Cli.{Cli, rx}
use voip.Actuator.Channels.{
  Channel, ChannelTable, field, update_channel, channel_or_new, read_fields, read_line, read_lines,
  forget_id, drop_name, drop_unseen, names_of, sweep, listed_at, refresh, concise_fields,
}

-- The channel `name` is listed, was probed, and carries the Call-ID.
pub record Carries (channels : List (Text × Channel)) (id name : Text) : Type 0 where
  pub ch : Channel
  pub listed : Dict.get name channels ≡ some ch
  pub carried : ch.call_id ≡ some id
  pub was_probed : ch.probed ≡ true
  pub nonempty : is_empty id ≡ false

abbrev pub Linked : List (Text × Channel) → List (Text × Text) → Type 0
Linked channels ids = (id name : Text) → Dict.get id ids ≡ some name → Carries channels id name

abbrev pub IsLinked : ChannelTable → Type 0
IsLinked table = Linked table.channels table.by_call_id

same_text-true : (a : Text) → same_text a a ≡ true
same_text-true a = (same_text_iff a a).1 refl

-- Writing a channel that keeps the Call-ID of the one it replaces.
pub put-Linked :
    (channels : List (Text × Channel)) (ids : List (Text × Text)) (name : Text) (new : Channel)
    → ((old : Channel)
        → Dict.get name channels ≡ some old
        → old.probed ≡ true
        → (new.call_id ≡ old.call_id) × (new.probed ≡ true))
    → Linked channels ids
    → Linked (Dict.put name new channels) ids
put-Linked channels ids name new keep l id n h =
    let c = l id n h in
    elim (Bool-cases (same_text name n)) [
      | inl same ↦
          let e = same_text-eq name n same in
          let k = keep c.ch (ap (λ x. Dict.get x channels) e ∙ c.listed) c.was_probed in
          record {
            ch = new;
            listed = ground (arith, Dict.get-put name n new channels, same);
            carried = k.0 ∙ c.carried;
            was_probed = k.1;
            nonempty = c.nonempty;
          }
      | inr other ↦ record {
        ch = c.ch;
        listed = ground (arith, Dict.get-put name n new channels, other, c.listed);
        carried = c.carried;
        was_probed = c.was_probed;
        nonempty = c.nonempty;
      }
    ]

update-keeps :
    (int_of : Text → Option ℕ) (table : ChannelTable) (name : Text) (f : List Text) (old : Channel)
    → Dict.get name table.channels ≡ some old
    → old.probed ≡ true
    → ((update_channel int_of table.channel_prefix f (channel_or_new table.channels name)).call_id
        ≡ old.call_id)
      × ((update_channel int_of table.channel_prefix f (channel_or_new table.channels name)).probed
          ≡ true)
unfolding update_channel channel_or_new
update-keeps int_of table name f old here probed =
    (rw (channel_or_new, here) refl, rw (channel_or_new, here) probed)

read_fields-IsLinked :
    (int_of : Text → Option ℕ) (f : List Text) (table : ChannelTable) (seen : List Text)
    → IsLinked table
    → IsLinked (read_fields int_of f (table, seen)).0
unfolding read_fields
read_fields-IsLinked int_of f table seen l = elim (Bool-cases (ltb (length f) concise_fields)) [
  | inl short ↦ rw short l
  | inr full ↦ rw full (elim (Bool-cases (starts_with table.channel_prefix (field f 0))) [
    | inr other ↦ rw other l
    | inl ours ↦ rw ours (
        put-Linked table.channels table.by_call_id (field f 0)
          (update_channel int_of table.channel_prefix f (channel_or_new table.channels (field f 0)))
          (λ old here probed. update-keeps int_of table (field f 0) f old here probed) l)
  ])
]

read_line-IsLinked :
    (int_of : Text → Option ℕ) (raw : Text) (table : ChannelTable) (seen : List Text)
    → IsLinked table
    → IsLinked (read_line int_of raw (table, seen)).0
unfolding read_line
read_line-IsLinked int_of raw table seen l =
    elim (Bool-cases (is_empty (strip raw) || not (has_char 33 (strip raw)))) [
      | inl skip ↦ rw skip l
      | inr row ↦ rw row (read_fields-IsLinked int_of (split_on 33 (strip raw)) table seen l)
    ]

read_lines-IsLinked :
    (int_of : Text → Option ℕ) (lines : List Text) (state : ChannelTable × List Text)
    → IsLinked state.0
    → IsLinked (read_lines int_of lines state).0
unfolding read_lines
read_lines-IsLinked int_of [] state l = l
read_lines-IsLinked int_of (line ∷ lines) (table, seen) l =
    read_lines-IsLinked int_of lines (read_line int_of line (table, seen))
      (read_line-IsLinked int_of line table seen l)

-- Forgetting only takes entries away, and takes the channel's own.
forget_id-sub :
    (cid : Option Text) (name : Text) (ids : List (Text × Text)) (id n : Text)
    → Dict.get id (forget_id cid name ids) ≡ some n
    → Dict.get id ids ≡ some n
unfolding forget_id
forget_id-sub none name ids id n h = h
forget_id-sub (some []) name ids id n h = h
forget_id-sub (some (c ∷ cs)) name ids id n h = elim (Option-cases (Dict.get (c ∷ cs) ids)) [
  | inl absent ↦ rw (forget_id, absent) at h
  | inr (m, here) ↦ elim (Bool-cases (same_text m name)) [
    | inl own ↦
        let gone = Dict.get-erase (c ∷ cs) id ids in
        let h' : Dict.get id (Dict.erase (c ∷ cs) ids) ≡ some n = rw (forget_id, here, own) at h in
        ground (arith, gone, h')
    | inr other ↦ rw (forget_id, here, other) at h
  ]
]

forget_id-own :
    (name : Text) (ids : List (Text × Text)) (id : Text)
    → is_empty id ≡ false
    → Dict.get id ids ≡ some name
    → Dict.get id (forget_id (some id) name ids) ≡ none
unfolding forget_id is_empty
forget_id-own name ids [] ne h = cc
forget_id-own name ids (c ∷ id) ne h =
    rw (forget_id, h, same_text-true name)
      (ground (arith, Dict.get-erase (c ∷ id) (c ∷ id) ids, same_text-true (c ∷ id)))

drop_name-Linked :
    (name : Text) (channels : List (Text × Channel)) (ids : List (Text × Text))
    → Linked channels ids
    → Linked (drop_name name (channels, ids)).0 (drop_name name (channels, ids)).1
unfolding drop_name
drop_name-Linked name channels ids l = elim (Option-cases (Dict.get name channels)) [
  | inl absent ↦ rw (drop_name, absent) l
  | inr (ch, here) ↦
      rw (drop_name, here)
        (λ id n h.
          let old = forget_id-sub ch.call_id name ids id n h in
          let c = l id n old in
          elim (Bool-cases (same_text name n)) [
            | inl same ↦
                let e = same_text-eq name n same in
                let listed' : Dict.get name channels ≡ some c.ch =
                  ap (λ x. Dict.get x channels) e ∙ c.listed in
                let same_channel : ch ≡ c.ch = cc (here, listed') in
                let carried' : ch.call_id ≡ some id =
                  ap (λ x. x.call_id) same_channel ∙ c.carried in
                let own = forget_id-own name ids id c.nonempty (cc (old, e)) in
                absurd (cc (h, own, carried'))
            | inr other ↦ record {
              ch = c.ch;
              listed = ground (arith, Dict.get-erase name n channels, other, c.listed);
              carried = c.carried;
              was_probed = c.was_probed;
              nonempty = c.nonempty;
            }
          ])
]

drop_unseen-Linked :
    (seen names : List Text) (state : List (Text × Channel) × List (Text × Text))
    → Linked state.0 state.1
    → Linked (drop_unseen seen names state).0 (drop_unseen seen names state).1
unfolding drop_unseen
drop_unseen-Linked seen [] state l = l
drop_unseen-Linked seen (name ∷ names) (channels, ids) l = elim (Bool-cases (member name seen)) [
  | inl kept ↦ rw (drop_unseen, kept) (drop_unseen-Linked seen names (channels, ids) l)
  | inr unseen ↦
      rw (drop_unseen, unseen)
        (drop_unseen-Linked seen names (drop_name name (channels, ids))
          (drop_name-Linked name channels ids l))
]

sweep-IsLinked : (state : ChannelTable × List Text) → IsLinked state.0 → IsLinked (sweep state)
unfolding sweep
sweep-IsLinked (table, seen) l =
    drop_unseen-Linked seen (names_of table.channels) (table.channels, table.by_call_id) l

-- Where each Call-ID of the table leads to a listed and probed channel that carries it, it does so
-- after a refresh, also one that raises.
pub refresh-IsLinked :
    (run : ℕ → Text → Option Text) (int_of : Text → Option ℕ) (now : ℕ) (force : Bool)
    (table : ChannelTable) (cli : Cli)
    → IsLinked table
    → IsLinked (refresh run int_of now force table cli).0
unfolding refresh listed_at
refresh-IsLinked run int_of now force table cli l =
    elim (Bool-cases (not force && ltb now (table.last_list + table.list_ttl))) [
      | inl recent ↦ rw (refresh, recent) l
      | inr due ↦ elim (Option-cases (rx run cli (codes "core show channels concise"))) [
        | inl raised ↦ rw (refresh, due, raised) l
        | inr ((out, cli'), got) ↦
            rw (refresh, due, got)
              (sweep-IsLinked (read_lines int_of (split_on 10 out) (listed_at now table, []))
                (read_lines-IsLinked int_of (split_on 10 out) (listed_at now table, []) l))
      ]
    ]
