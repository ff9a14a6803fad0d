-- ===== src/Tap/RoundTrip.antt =====
-- phraseguard/tap.py: read_pcap_stream reads back what was written.
use voip.Prelude.{
  ℕ, zero, suc, ◌+◌, ◌*◌, ◌/◌, ◌%◌, ◌≤◌, ◌<◌, ◌≡◌, refl, ap, ◌∙◌, arith, Bool, true, false, List,
  [], ◌∷◌, ◌++◌, some, length, take, drop, replicate, map, All, ltb, if◌then◌else◌, ◌==◌,
  length-append,
}
use voip.Prelude.Dict
use voip.Tap.G711.{Bytes}
use voip.Tap.Pipe.{Pipe, Brings, read_exact, split_at}
use voip.Tap.Replay.{read_pcap_stream-eq}
use voip.Tap.Capture.{
  Packet, word16, byte, captured, word32, dotted, decode_frame, next_record, records, with_order,
  read_pcap_stream,
}
use voip.Tap.Writing.{
  Link, sll, sll2, ethernet, link_number, link_size, link_header, Datagram, frame_bytes, put32,
  write_record, write_records, write_pcap, packet_of, address, IsDatagram,
}

join16 : (n : ℕ) → n / 256 * 256 + n % 256 ≡ n
join16 n = omega arith

put32-word32 :
    (le : Bool) (n : ℕ) (rest : Bytes) → n < 4294967296 → word32 le (put32 le n rest) 0 ≡ n
unfolding put32
put32-word32 true n rest h = omega arith
put32-word32 false n rest h = omega arith

-- The datagram at its place in a frame that holds one.
decode_frame_udp :
    (link off0 ts : ℕ) (frame : Bytes)
    → (if link == 113
        then word16 frame 14
        else if link == 276
        then word16 frame 0
        else word16 frame 12)
      ≡ 0x0800
    → byte frame off0 ≡ 0x45
    → byte frame (off0 + 9) ≡ 17
    → off0 + 28 ≤ length frame
    → decode_frame link off0 ts frame
      ≡ some record {
        ts = ts;
        src = dotted frame (off0 + 12);
        sport = word16 frame (off0 + 20);
        dst = dotted frame (off0 + 16);
        dport = word16 frame (off0 + 20 + 2);
        payload = drop (off0 + 20 + 8) frame;
      }
unfolding decode_frame
decode_frame_udp link off0 ts frame proto version udp enough =
    let size : ltb (length frame) (off0 + 20) ≡ false = ground arith in
    let size' : ltb (length frame) (off0 + 20 + 8) ≡ false = ground arith in
    rw (decode_frame, size, proto, udp, version, size') refl

same_packet :
    (p q : Packet)
    → p.ts ≡ q.ts
    → p.src ≡ q.src
    → p.sport ≡ q.sport
    → p.dst ≡ q.dst
    → p.dport ≡ q.dport
    → p.payload ≡ q.payload
    → p ≡ q
same_packet p q a b c d e f =
    λ i. record { ts = a i; src = b i; sport = c i; dst = d i; dport = e i; payload = f i }

decode_frame-frame_bytes :
    (l : Link) (ts : ℕ) (f : Datagram)
    → ts ≡ f.seconds * 1000000 + f.micros
    → decode_frame (link_number l) (link_size l) ts (frame_bytes l f) ≡ some (packet_of f)
unfolding frame_bytes link_number link_size link_header packet_of dotted address
decode_frame-frame_bytes sll ts f e =
    decode_frame_udp 113 16 ts (frame_bytes sll f) refl refl refl (omega arith)
    ∙ ap some (same_packet _ (packet_of f) e refl (join16 f.sport) refl (join16 f.dport) refl)
decode_frame-frame_bytes sll2 ts f e =
    decode_frame_udp 276 20 ts (frame_bytes sll2 f) refl refl refl (omega arith)
    ∙ ap some (same_packet _ (packet_of f) e refl (join16 f.sport) refl (join16 f.dport) refl)
decode_frame-frame_bytes ethernet ts f e =
    decode_frame_udp 1 14 ts (frame_bytes ethernet f) refl refl refl (omega arith)
    ∙ ap some (same_packet _ (packet_of f) e refl (join16 f.sport) refl (join16 f.dport) refl)

take-append_self : (xs ys : Bytes) → take (length xs) (xs ++ ys) ≡ xs
take-append_self [] ys = refl
take-append_self (x ∷ xs) ys = ap (λ zs. x ∷ zs) (take-append_self xs ys)

drop-append_self : (xs ys : Bytes) → drop (length xs) (xs ++ ys) ≡ ys
drop-append_self [] ys = refl
drop-append_self (x ∷ xs) ys = drop-append_self xs ys

split_at-append : (xs ys : Bytes) → split_at (length xs) (xs ++ ys) ≡ some (xs, ys)
unfolding split_at
split_at-append xs ys =
    let enough : ltb (length (xs ++ ys)) (length xs) ≡ false =
      ground (arith, length-append xs ys) in
    rw (split_at, enough, take-append_self, drop-append_self) refl

-- The header of a record, as the 16 bytes that are read at once.
abbrev record_header : Bool → ℕ → ℕ → ℕ → Bytes
record_header le a b n = put32 le a (put32 le b (put32 le n (put32 le n [])))

next_record_read :
    (le : Bool) (s ph s1 frame s2 : Bytes) (n : ℕ)
    → split_at 16 s ≡ some (ph, s1)
    → word32 le ph 8 ≡ n
    → split_at n s1 ≡ some (frame, s2)
    → next_record split_at le s ≡ some ((word32 le ph 0 * 1000000 + word32 le ph 4, frame), s2)
unfolding next_record
next_record_read le s ph s1 frame s2 n a b c = rw (next_record, a, b, c) refl

split_at-header :
    (le : Bool) (a b n : ℕ) (rest : Bytes)
    → split_at 16 (put32 le a (put32 le b (put32 le n (put32 le n rest))))
      ≡ some (record_header le a b n, rest)
unfolding put32
split_at-header true a b n rest = split_at-append (record_header true a b n) rest
split_at-header false a b n rest = split_at-append (record_header false a b n) rest

header-word32 :
    (le : Bool) (a b n : ℕ)
    → a < 4294967296
    → b < 4294967296
    → n < 4294967296
    → (word32 le (record_header le a b n) 0 ≡ a)
      × (word32 le (record_header le a b n) 4 ≡ b)
      × (word32 le (record_header le a b n) 8 ≡ n)
unfolding put32
header-word32 true a b n ha hb hn = (omega arith, omega arith, omega arith)
header-word32 false a b n ha hb hn = (omega arith, omega arith, omega arith)

length-frame_bytes : (l : Link) (f : Datagram) → length (frame_bytes l f) ≤ length f.body + 48
unfolding frame_bytes link_header
length-frame_bytes sll f = omega arith
length-frame_bytes sll2 f = omega arith
length-frame_bytes ethernet f = omega arith

next_record-write_record :
    (le : Bool) (l : Link) (f : Datagram) (rest : Bytes)
    → IsDatagram f
    → next_record split_at le (write_record le l f rest)
      ≡ some ((f.seconds * 1000000 + f.micros, frame_bytes l f), rest)
unfolding write_record
next_record-write_record le l f rest (hs, hm, _, _, hb) =
    let n = length (frame_bytes l f) in
    let (a, b, c) =
      header-word32 le f.seconds f.micros n hs hm (omega (arith, length-frame_bytes l f)) in
    next_record_read le (write_record le l f rest) (record_header le f.seconds f.micros n)
      (frame_bytes l f ++ rest) (frame_bytes l f) rest n
      (split_at-header le f.seconds f.micros n (frame_bytes l f ++ rest)) c
      (split_at-append (frame_bytes l f) rest)
    ∙ ap (λ t. some ((t, frame_bytes l f), rest))
        (let e : word32 le (record_header le f.seconds f.micros n) 0 * 1000000
                + word32 le (record_header le f.seconds f.micros n) 4
              ≡ f.seconds * 1000000 + f.micros =
            cc (a, b) in
          e)

records-nil :
    (fuel : ℕ) (le : Bool) (link off0 : ℕ)
    → records split_at (suc fuel) le link off0 [] ≡ captured []
unfolding records next_record split_at
records-nil fuel le link off0 = refl

records-write_records :
    (fuel : ℕ) (le : Bool) (l : Link) (fs : List Datagram)
    → All IsDatagram fs
    → length fs < fuel
    → records split_at fuel le (link_number l) (link_size l) (write_records le l fs)
      ≡ captured (map packet_of fs)
unfolding write_records records packet_of
records-write_records zero le l fs h enough = absurd (omega arith)
records-write_records (suc fuel) le l [] h enough =
    records-nil fuel le (link_number l) (link_size l)
records-write_records (suc fuel) le l (f ∷ fs) h enough =
    rw
      (
        records,
        next_record-write_record le l f (write_records le l fs) h.0,
        decode_frame-frame_bytes l (f.seconds * 1000000 + f.micros) f refl,
        records-write_records fuel le l fs h.1 (omega arith),
      )
      refl

with_order_known :
    (fuel : ℕ) (le : Bool) (l : Link) (link : ℕ) (s : Bytes)
    → link ≡ link_number l
    → with_order split_at fuel le link s ≡ records split_at fuel le (link_number l) (link_size l) s
unfolding with_order link_number link_size Dict.get
with_order_known fuel le sll link s e = rw e refl
with_order_known fuel le sll2 link s e = rw e refl
with_order_known fuel le ethernet link s e = rw e refl

link_small : (l : Link) → link_number l < 4294967296
unfolding link_number
link_small sll = omega arith
link_small sll2 = omega arith
link_small ethernet = omega arith

abbrev global_header : Bool → Link → Bytes
global_header le l = put32 le 0xA1B2C3D4 (replicate 16 0 ++ put32 le (link_number l) [])

header_link : (le : Bool) (l : Link) → word32 le (global_header le l) 20 ≡ link_number l
unfolding put32
header_link true l = let h = link_small l in omega arith
header_link false l = let h = link_small l in omega arith

-- Reading a capture of UDP datagrams, in either byte order and on each link type, yields these
-- datagrams in order, with their times, addresses, ports and payloads.
pub read_pcap_stream-write_pcap :
    (fuel : ℕ) (le : Bool) (l : Link) (fs : List Datagram)
    → All IsDatagram fs
    → length fs < fuel
    → read_pcap_stream split_at fuel (write_pcap le l fs) ≡ captured (map packet_of fs)
unfolding write_pcap put32 read_pcap_stream
read_pcap_stream-write_pcap fuel true l fs h enough =
    rw (read_pcap_stream, split_at-append (global_header true l) (write_records true l fs))
      (with_order_known fuel true l (word32 true (global_header true l) 20)
          (write_records true l fs) (header_link true l)
        ∙ records-write_records fuel true l fs h enough)
read_pcap_stream-write_pcap fuel false l fs h enough =
    rw (read_pcap_stream, split_at-append (global_header false l) (write_records false l fs))
      (with_order_known fuel false l (word32 false (global_header false l) 20)
          (write_records false l fs) (header_link false l)
        ∙ records-write_records fuel false l fs h enough)

-- Reading a capture of UDP datagrams from a pipe, in either byte order, on each link type and however
-- the pipe cuts the bytes, yields these datagrams in order, with their times, addresses, ports and
-- payloads. The fields are of the widths that they are written with, and the fuel is over the count of
-- the datagrams.
pub read_pcap_stream_replay :
    (fuel : ℕ) (le : Bool) (l : Link) (fs : List Datagram) (pipe : Pipe)
    → All IsDatagram fs
    → Brings pipe (write_pcap le l fs)
    → length fs < fuel
    → read_pcap_stream read_exact fuel pipe ≡ captured (map packet_of fs)
read_pcap_stream_replay fuel le l fs pipe h brings enough =
    read_pcap_stream-eq fuel pipe (write_pcap le l fs) brings
    ∙ read_pcap_stream-write_pcap fuel le l fs h enough
