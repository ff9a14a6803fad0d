-- ===== src/Tap/Capture.antt =====
-- phraseguard/tap.py: read_pcap_stream, over any way to read an exact number of bytes.
use Prim.Native.Nat.{bit_and}
use voip.Prelude.{
  ℕ, zero, suc, ◌+◌, ◌*◌, ◌/◌, ◌%◌, Bool, true, false, List, [], ◌∷◌, ◌++◌, Option, none, some,
  get_or, drop, length, ltb, ◌==◌, if◌then◌else◌, not, Text, ℕ-eq,
}
use voip.Prelude.Dict
use voip.Tap.G711.{Bytes}

-- What read_pcap_stream yields for a datagram; the time is in microseconds.
pub record Packet : Type 0 where
  pub ts : ℕ
  pub src : Text
  pub sport : ℕ
  pub dst : Text
  pub dport : ℕ
  pub payload : Bytes

abbrev pub byte : Bytes → ℕ → ℕ
byte frame i = get_or frame i 0

-- struct.unpack("!H", data[i:i + 2])[0]
abbrev pub word16 : Bytes → ℕ → ℕ
word16 frame i = byte frame i * 256 + byte frame (i + 1)

-- struct.unpack(e + "I", data[i:i + 4])[0]; `le` is for "<".
abbrev pub word32 : Bool → Bytes → ℕ → ℕ
word32 le frame i =
    if le
    then byte frame i
      + 256 * byte frame (i + 1)
      + 65536 * byte frame (i + 2)
      + 16777216 * byte frame (i + 3)
    else byte frame i * 16777216
      + byte frame (i + 1) * 65536
      + byte frame (i + 2) * 256
      + byte frame (i + 3)

-- "%d" of a byte
unfoldable pub decimal : ℕ → Text
decimal n =
    let units : Text = (48 + n % 10) ∷ [] in
    let tens : Text = (48 + n / 10 % 10) ∷ units in
    if ltb n 10 then units else if ltb n 100 then tens else (48 + n / 100) ∷ tens

-- "%d.%d.%d.%d" of data[i:i + 4]
unfoldable pub dotted : Bytes → ℕ → Text
unfolding decimal
dotted frame i =
    decimal (byte frame i)
    ++ (46 ∷ decimal (byte frame (i + 1)))
    ++ (46 ∷ decimal (byte frame (i + 2)))
    ++ (46 ∷ decimal (byte frame (i + 3)))

-- LINKTYPES
abbrev pub link_types : List (ℕ × ℕ)
link_types = (113, 16) ∷ (276, 20) ∷ (1, 14) ∷ []

-- One frame, with the length of its link header; `none` is for `continue`.
unfoldable pub decode_frame : ℕ → ℕ → ℕ → Bytes → Option Packet
unfolding dotted
decode_frame link off0 ts frame =
    let proto =
      if link == 113
      then word16 frame 14
      else if link == 276
      then word16 frame 0
      else word16 frame 12 in
    let u = off0 + bit_and (byte frame off0) 0x0f * 4 in
    if ltb (length frame) (off0 + 20)
    then none
    else if not (proto == 0x0800)
    then none
    else if not (byte frame (off0 + 9) == 17)
    then none
    else if ltb (length frame) (u + 8)
    then none
    else some record {
      ts = ts;
      src = dotted frame (off0 + 12);
      sport = word16 frame u;
      dst = dotted frame (off0 + 16);
      dport = word16 frame (u + 2);
      payload = drop (u + 8) frame;
    }

-- What comes of a capture: its packets, or the exception; `stuck` is for running out of fuel.
pub data Outcome : Type 0 where
  captured : List Packet → Outcome
  capture_failed : Outcome
  bad_magic : ℕ → Outcome
  bad_link : ℕ → Outcome
  stuck : Outcome

abbrev pub yield : Option Packet → Outcome → Outcome
yield (some p) (captured ps) = captured (p ∷ ps)
yield _ out = out

module _ {S : Type 0} (read : ℕ → S → Option (Bytes × S)) where
  -- One round of the loop: the record's frame and what is behind it.
  unfoldable pub next_record : Bool → S → Option ((ℕ × Bytes) × S)
  next_record le s = elim (read 16 s) [
    | none ↦ none
    | some (ph, s1) ↦ elim (read (word32 le ph 8) s1) [
      | none ↦ none
      | some (frame, s2) ↦ some ((word32 le ph 0 * 1000000 + word32 le ph 4, frame), s2)
    ]
  ]

  -- The loop of read_pcap_stream.
  unfoldable pub records : ℕ → Bool → ℕ → ℕ → S → Outcome
  unfolding next_record decode_frame
  records zero le link off0 s = stuck
  records (suc fuel) le link off0 s = elim (next_record le s) [
    | none ↦ captured []
    | some ((ts, frame), rest) ↦
        yield (decode_frame link off0 ts frame) (records fuel le link off0 rest)
  ]

  unfoldable pub with_order : ℕ → Bool → ℕ → S → Outcome
  unfolding records Dict.get
  with_order fuel le link s = elim (Dict.get link link_types) [
    | none ↦ bad_link link
    | some off0 ↦ records fuel le link off0 s
  ]

  unfoldable pub read_pcap_stream : ℕ → S → Outcome
  unfolding with_order
  read_pcap_stream fuel s = elim (read 24 s) [
    | none ↦ capture_failed
    | some (gh, rest) ↦
        let magic = word32 true gh 0 in
        if magic == 0xA1B2C3D4
        then with_order fuel true (word32 true gh 20) rest
        else if magic == 0xD4C3B2A1
        then with_order fuel false (word32 false gh 20) rest
        else bad_magic magic
  ]
