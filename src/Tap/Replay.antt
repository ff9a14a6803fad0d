-- ===== src/Tap/Replay.antt =====
-- phraseguard/tap.py: read_pcap_stream on a pipe and on a file, and that it ends.
use voip.Prelude.{
  ℕ, ℕ-eq, zero, suc, ◌+◌, ◌≤◌, ◌<◌, ◌≡◌, ◌≢◌, refl, sym, ap, ◌∙◌, arith, Bool, true, false, Option,
  none, some, length, length-drop, drop, if◌then◌else◌, ltb, ◌==◌, ◌⊎◌, inl, inr, Bool-cases,
  Option-cases,
}
use voip.Prelude.Dict
use voip.Tap.G711.{Bytes}
use voip.Tap.Pipe.{Pipe, read_exact, split_at, Brings, Agrees, read_exact-Agrees}
use voip.Tap.Capture.{
  Packet, Outcome, captured, capture_failed, bad_magic, bad_link, stuck, word32, link_types,
  decode_frame, next_record, records, with_order, read_pcap_stream, yield,
}

-- Two outcomes of a read that agree, taken apart.
Agrees-cases :
    {X : Type 0} (a : Option (X × Pipe)) (b : Option (X × Bytes))
    → Agrees a b
    → ((a ≡ none) × (b ≡ none))
      ⊎ ((x : X) × (pipe : Pipe) × (s : Bytes) × (a ≡ some (x, pipe))
          × (b ≡ some (x, s))
          × Brings pipe s)
Agrees-cases none none h = inl (refl, refl)
Agrees-cases none (some y) h = absurd h
Agrees-cases (some x) none h = absurd h
Agrees-cases (some (x, pipe)) (some (y, s)) (e, h) =
    inr (x, pipe, s, refl, ap (λ z. some (z, s)) (sym e), h)

next_record-Agrees :
    (le : Bool) (pipe : Pipe) (s : Bytes)
    → Brings pipe s
    → Agrees (next_record read_exact le pipe) (next_record split_at le s)
unfolding next_record
next_record-Agrees le pipe s h =
    elim (Agrees-cases (read_exact 16 pipe) (split_at 16 s) (read_exact-Agrees 16 pipe s h)) [
      | inl (a, b) ↦ rw (next_record, a, b) tt
      | inr (ph, pipe', s', a, b, h') ↦
          let n = word32 le ph 8 in
          elim (Agrees-cases (read_exact n pipe') (split_at n s')
            (read_exact-Agrees n pipe' s' h')) [
              | inl (a', b') ↦ rw (next_record, a, b, a', b') tt
              | inr (frame, pipe'', s'', a', b', h'') ↦ rw (next_record, a, b, a', b') (refl, h'')
            ]
    ]

records-eq :
    (fuel : ℕ) (le : Bool) (link off0 : ℕ) (pipe : Pipe) (s : Bytes)
    → Brings pipe s
    → records read_exact fuel le link off0 pipe ≡ records split_at fuel le link off0 s
unfolding records
records-eq zero le link off0 pipe s h = refl
records-eq (suc fuel) le link off0 pipe s h =
    elim (Agrees-cases (next_record read_exact le pipe) (next_record split_at le s)
      (next_record-Agrees le pipe s h)) [
        | inl (a, b) ↦ rw (records, a, b) refl
        | inr ((ts, frame), pipe', s', a, b, h') ↦
            rw (records, a, b, records-eq fuel le link off0 pipe' s' h') refl
      ]

with_order-eq :
    (fuel : ℕ) (le : Bool) (link : ℕ) (pipe : Pipe) (s : Bytes)
    → Brings pipe s
    → with_order read_exact fuel le link pipe ≡ with_order split_at fuel le link s
unfolding with_order
with_order-eq fuel le link pipe s h = elim (Option-cases (Dict.get link link_types)) [
  | inl unknown ↦ rw (with_order, unknown) refl
  | inr (off0, known) ↦ rw (with_order, known) (records-eq fuel le link off0 pipe s h)
]

-- What read_pcap_stream yields does not depend on how the writer of the pipe cut its bytes: it is what
-- reading them from a file gives.
pub read_pcap_stream-eq :
    (fuel : ℕ) (pipe : Pipe) (s : Bytes)
    → Brings pipe s
    → read_pcap_stream read_exact fuel pipe ≡ read_pcap_stream split_at fuel s
unfolding read_pcap_stream
read_pcap_stream-eq fuel pipe s h =
    elim (Agrees-cases (read_exact 24 pipe) (split_at 24 s) (read_exact-Agrees 24 pipe s h)) [
      | inl (a, b) ↦ rw (read_pcap_stream, a, b) refl
      | inr (gh, pipe', s', a, b, h') ↦
          rw
            (
              read_pcap_stream,
              a,
              b,
              with_order-eq fuel true (word32 true gh 20) pipe' s' h',
              with_order-eq fuel false (word32 false gh 20) pipe' s' h',
            )
            refl
    ]

-- What reading an exact number leaves.
split_at_left : (n : ℕ) (s a s' : Bytes) → split_at n s ≡ some (a, s') → length s' + n ≡ length s
unfolding split_at
split_at_left n s a s' e = elim (Bool-cases (ltb (length s) n)) [
  | inl short ↦ cc (rw (split_at, short) at e)
  | inr long ↦
      let left : drop n s ≡ s' = cc (rw (split_at, long) at e) in
      ground (arith, length-drop n s, ap length left)
]

-- A record takes its header at least.
next_record_shorter :
    (le : Bool) (s s' : Bytes) (r : ℕ × Bytes)
    → next_record split_at le s ≡ some (r, s')
    → length s' + 16 ≤ length s
unfolding next_record
next_record_shorter le s s' r e = elim (Option-cases (split_at 16 s)) [
  | inl short ↦ absurd (cc (rw (next_record, short) at e))
  | inr ((ph, s1), header) ↦ elim (Option-cases (split_at (word32 le ph 8) s1)) [
    | inl short ↦ absurd (cc (rw (next_record, header, short) at e))
    | inr ((frame, s2), body) ↦
        let last : s2 ≡ s' = cc (rw (next_record, header, body) at e) in
        omega (
          arith,
          ap length last,
          split_at_left 16 s ph s1 header,
          split_at_left (word32 le ph 8) s1 frame s2 body,
        )
  ]
]

yield_end : (o : Option Packet) (out : Outcome) → out ≢ stuck → yield o out ≢ stuck
yield_end none out h = h
yield_end (some p) (captured ps) h = λ e. cc
yield_end (some p) capture_failed h = h
yield_end (some p) (bad_magic n) h = h
yield_end (some p) (bad_link n) h = h
yield_end (some p) stuck h = h

-- On a finite capture the loop ends: it needs a round for each 16 bytes at most.
records_end :
    (fuel : ℕ) (le : Bool) (link off0 : ℕ) (s : Bytes)
    → length s < fuel
    → records split_at fuel le link off0 s ≢ stuck
unfolding records
records_end zero le link off0 s h = absurd (omega arith)
records_end (suc fuel) le link off0 s h = elim (Option-cases (next_record split_at le s)) [
  | inl done ↦ rw (records, done) (λ e. cc)
  | inr (((ts, frame), s'), more) ↦
      let shorter = next_record_shorter le s s' (ts, frame) more in
      rw (records, more)
        (yield_end (decode_frame link off0 ts frame) _
          (records_end fuel le link off0 s' (omega arith)))
]

with_order_end :
    (fuel : ℕ) (le : Bool) (link : ℕ) (s : Bytes)
    → length s < fuel
    → with_order split_at fuel le link s ≢ stuck
unfolding with_order
with_order_end fuel le link s h = elim (Option-cases (Dict.get link link_types)) [
  | inl unknown ↦ rw (with_order, unknown) (λ e. cc)
  | inr (off0, known) ↦ rw (with_order, known) (records_end fuel le link off0 s h)
]

magic_end :
    (fuel : ℕ) (gh s : Bytes) (b c : Bool) (n : ℕ)
    → length s < fuel
    → (if b
        then with_order split_at fuel true (word32 true gh 20) s
        else if c
        then with_order split_at fuel false (word32 false gh 20) s
        else bad_magic n)
      ≢ stuck
magic_end fuel gh s true c n h = with_order_end fuel true (word32 true gh 20) s h
magic_end fuel gh s false true n h = with_order_end fuel false (word32 false gh 20) s h
magic_end fuel gh s false false n h = λ e. cc

-- On every finite capture, well formed or not, read_pcap_stream ends.
pub read_pcap_stream_end : (s : Bytes) → read_pcap_stream split_at (length s + 1) s ≢ stuck
unfolding read_pcap_stream
read_pcap_stream_end s = elim (Option-cases (split_at 24 s)) [
  | inl short ↦ rw (read_pcap_stream, short) (λ e. cc)
  | inr ((gh, rest), header) ↦
      rw (read_pcap_stream, header)
        (magic_end (length s + 1) gh rest (word32 true gh 0 == 0xA1B2C3D4)
          (word32 true gh 0 == 0xD4C3B2A1) (word32 true gh 0)
          (omega (arith, split_at_left 24 s gh rest header)))
]

-- On every finite capture that comes through a pipe, well formed or not and however it is cut,
-- read_pcap_stream ends with a round for each byte and one more, and it returns what it returns on the
-- same bytes read at once.
pub read_pcap_stream-Ends :
    (pipe : Pipe) (s : Bytes)
    → Brings pipe s
    → (read_pcap_stream read_exact (length s + 1) pipe ≢ stuck)
      × (read_pcap_stream read_exact (length s + 1) pipe
          ≡ read_pcap_stream split_at (length s + 1) s)
read_pcap_stream-Ends pipe s h =
    let e = read_pcap_stream-eq (length s + 1) pipe s h in
    (λ r. read_pcap_stream_end s (sym e ∙ r), e)
