-- ===== src/Tap/Writing.antt =====
-- Captures of UDP datagrams as a writer of the pcap format makes them, to read back.
use voip.Prelude.{
  ℕ, ◌+◌, ◌*◌, ◌/◌, ◌%◌, ◌<◌, Bool, List, [], ◌∷◌, ◌++◌, length, replicate, if◌then◌else◌,
}
use voip.Tap.G711.{Bytes}
use voip.Tap.Capture.{Packet, dotted}

pub data Link : Type 0 where
  sll : Link
  sll2 : Link
  ethernet : Link

unfoldable pub link_number : Link → ℕ
link_number sll = 113
link_number sll2 = 276
link_number ethernet = 1

unfoldable pub link_size : Link → ℕ
link_size sll = 16
link_size sll2 = 20
link_size ethernet = 14

-- Zeros, but for the protocol, which is IPv4.
unfoldable pub link_header : Link → Bytes
link_header sll = replicate 14 0 ++ (8 ∷ 0 ∷ [])
link_header sll2 = 8 ∷ 0 ∷ replicate 18 0
link_header ethernet = replicate 12 0 ++ (8 ∷ 0 ∷ [])

pub record Address : Type 0 where
  pub a : ℕ
  pub b : ℕ
  pub c : ℕ
  pub d : ℕ

pub record Datagram : Type 0 where
  pub seconds : ℕ
  pub micros : ℕ
  pub from : Address
  pub sport : ℕ
  pub to : Address
  pub dport : ℕ
  pub body : Bytes

unfoldable pub frame_bytes : Link → Datagram → Bytes
unfolding link_header
frame_bytes l f =
    link_header l
    ++ (0x45
        ∷ 0
        ∷ 0
        ∷ 0
        ∷ 0
        ∷ 0
        ∷ 0
        ∷ 0
        ∷ 64
        ∷ 17
        ∷ 0
        ∷ 0
        ∷ f.from.a
        ∷ f.from.b
        ∷ f.from.c
        ∷ f.from.d
        ∷ f.to.a
        ∷ f.to.b
        ∷ f.to.c
        ∷ f.to.d
        ∷ f.sport / 256
        ∷ f.sport % 256
        ∷ f.dport / 256
        ∷ f.dport % 256
        ∷ 0
        ∷ 0
        ∷ 0
        ∷ 0
        ∷ f.body)

-- struct.pack(e + "I", n), put in front
unfoldable pub put32 : Bool → ℕ → Bytes → Bytes
put32 le n rest =
    if le
    then n % 256 ∷ n / 256 % 256 ∷ n / 65536 % 256 ∷ n / 16777216 ∷ rest
    else n / 16777216 ∷ n / 65536 % 256 ∷ n / 256 % 256 ∷ n % 256 ∷ rest

unfoldable pub write_record : Bool → Link → Datagram → Bytes → Bytes
unfolding put32 frame_bytes
write_record le l f rest =
    let frame = frame_bytes l f in
    put32 le f.seconds
      (put32 le f.micros (put32 le (length frame) (put32 le (length frame) (frame ++ rest))))

unfoldable pub write_records : Bool → Link → List Datagram → Bytes
unfolding write_record
write_records le l [] = []
write_records le l (f ∷ fs) = write_record le l f (write_records le l fs)

unfoldable pub write_pcap : Bool → Link → List Datagram → Bytes
unfolding put32 write_records link_number
write_pcap le l fs =
    put32 le 0xA1B2C3D4 (replicate 16 0 ++ put32 le (link_number l) (write_records le l fs))

-- The datagram as read_pcap_stream is to yield it.
unfoldable pub address : Address → Bytes
address i = i.a ∷ i.b ∷ i.c ∷ i.d ∷ []

unfoldable pub packet_of : Datagram → Packet
unfolding address
packet_of f = record {
  ts = f.seconds * 1000000 + f.micros;
  src = dotted (address f.from) 0;
  sport = f.sport;
  dst = dotted (address f.to) 0;
  dport = f.dport;
  payload = f.body;
}

-- The fields fit the widths of their places.
abbrev pub IsDatagram : Datagram → Type 0
IsDatagram f =
    (f.seconds < 4294967296)
    × (f.micros < 4294967296)
    × (f.sport < 65536)
    × (f.dport < 65536)
    × (length f.body < 65508)
