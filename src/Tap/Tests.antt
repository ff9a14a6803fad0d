-- ===== src/Tap/Tests.antt =====
-- The tap of phraseguard/tap.py on small packets.
use voip.Prelude.{
  ℕ, ◌+◌, ◌*◌, ◌/◌, ◌≤◌, Bool, true, false, List, [], ◌∷◌, ◌++◌, map, Option, none, All, leb, ltb,
  length, take, drop, Text, Text-eq, codes, member, same_text, ◌≡◌, ◌≢◌, refl, arith,
}
use voip.Prelude.Dict
use voip.Metaphone.Loop.{is_empty}
use voip.Tap.G711.{Bytes, pos, ulaw, decode_g711, square_sum}
use voip.Tap.Samples.{samples, energy, linear, fits, decode_g711-samples}
use voip.Tap.Pipe.{Pipe, read_exact, split_at}
use voip.Tap.Capture.{Packet, captured, stuck, read_pcap_stream}
use voip.Tap.Replay.{read_pcap_stream-Ends}
use voip.Tap.Writing.{
  sll2, Datagram, write_pcap, write_records, write_record, frame_bytes, link_header, link_number,
  put32, packet_of,
}
use voip.Tap.RoundTrip.{read_pcap_stream_replay}
use voip.Tap.Sip.{CallInfo, SipTracker, new_tracker, second, call_for_media}
use voip.Tap.SipFeed.{feed as feed_sip}
use voip.Tap.Tracked.{Fed, feed-Fed}
use voip.Tap.Rtp.{Stream, RtpDemux, take_pcm, audio_of, gc, bump}
use voip.Tap.RtpFeed.{
  feed as feed_rtp, feed_packet, feed_audio, feed_stream, new_stream, hear, attribute_stream,
  attribute, measure, gate, push_audio, buffered, put_stream,
}
use voip.Tap.Gated.{Limited, feed-Limited}
use voip.Tap.Run.{Tap, run, step, on_rtp, hand_over, count, call_of}
use voip.Tap.Kept.{IsTap, run-IsTap}

abbrev tone : Bytes
tone = 0x80 ∷ 0x00 ∷ 0xff ∷ []

ulaw_ends : (ulaw 0x80 ≡ pos 32124) × (ulaw 0xff ≡ pos 0)
unfolding ulaw
ulaw_ends = (refl, refl)

decode_g711-samples_example :
    (samples (decode_g711 false tone) ≡ map (linear false) tone)
    × All (λ v. fits v ≡ true) (samples (decode_g711 false tone))
    × (length (decode_g711 false tone) ≡ 2 * length tone)
    × (square_sum false tone ≡ energy (samples (decode_g711 false tone)))
decode_g711-samples_example =
    decode_g711-samples false tone (omega arith, (omega arith, (omega arith, tt)))

abbrev ringing : Datagram
ringing = record {
  seconds = 1700000000;
  micros = 250000;
  from = record { a = 192; b = 0; c = 2; d = 7 };
  sport = 5060;
  to = record { a = 198; b = 51; c = 100; d = 2 };
  dport = 5060;
  body = codes "BYE";
}

-- A capture, cut into three reads.
abbrev cut_capture : Pipe
cut_capture =
    let s = write_pcap false sll2 (ringing ∷ []) in take 10 s ∷ take 30 (drop 10 s) ∷ drop 40 s ∷ []

read_pcap_stream_replay_example :
    read_pcap_stream read_exact 2 cut_capture ≡ captured (packet_of ringing ∷ [])
unfolding write_pcap write_records write_record frame_bytes link_header link_number put32
read_pcap_stream_replay_example =
    read_pcap_stream_replay 2 false sll2 (ringing ∷ []) cut_capture
      ((omega arith, omega arith, omega arith, omega arith, omega arith), tt)
      (refl, (omega arith, (omega arith, (omega arith, tt)))) (omega arith)

-- Four bytes are no header.
abbrev noise : Pipe
noise = (1 ∷ 2 ∷ []) ∷ (3 ∷ []) ∷ (4 ∷ []) ∷ []

read_pcap_stream-Ends_example :
    (read_pcap_stream read_exact 5 noise ≢ stuck)
    × (read_pcap_stream read_exact 5 noise ≡ read_pcap_stream split_at 5 (1 ∷ 2 ∷ 3 ∷ 4 ∷ []))
read_pcap_stream-Ends_example =
    read_pcap_stream-Ends noise (1 ∷ 2 ∷ 3 ∷ 4 ∷ [])
      (refl, (omega arith, (omega arith, (omega arith, tt))))

abbrev pub customer : Text
customer = codes "192.0.2.7"

abbrev pub tracker : SipTracker
tracker = new_tracker (customer ∷ []) (7200 * second)

abbrev invite : Bytes
invite =
    codes "INVITE sip:15551234567@sbc SIP/2.0"
    ++ (13 ∷ 10 ∷ codes "Call-ID: abc@host")
    ++ (13 ∷ 10 ∷ 13 ∷ 10 ∷ [])

abbrev any_text : Text → Bool
any_text s = true

abbrev no_number : Text → Option ℕ
no_number s = none

abbrev as_text : Bytes → Text
as_text bytes = bytes

feed-Fed_example :
    Fed tracker
      (feed_sip any_text no_number as_text second customer (codes "198.51.100.2") invite tracker)
unfolding new_tracker
feed-Fed_example =
    feed-Fed any_text no_number as_text second customer (codes "198.51.100.2") invite tracker tt

-- A demux without streams, over whole numbers for floats.
abbrev pub demux : RtpDemux ℕ
demux = record {
  media_ips = customer ∷ [];
  gate_rms = 200;
  gate_seconds = 2;
  ring_bytes = 4;
  idle_timeout = 30 * second;
  streams = [];
  stats = [];
  other_sources = [];
  last_gc = 0;
}

abbrev pub mean : ℕ → ℕ → ℕ
mean t n = t / n

abbrev pub seconds_of : ℕ → ℕ
seconds_of n = n

abbrev pub plus : ℕ → ℕ → ℕ
plus a b = a + b

-- A packet of G.711 with three loud bytes.
abbrev speech : Bytes
speech = 0x80 ∷ 0 ∷ 0 ∷ 1 ∷ 0 ∷ 0 ∷ 0 ∷ 1 ∷ 0 ∷ 0 ∷ 0 ∷ 9 ∷ 0x80 ∷ 0x00 ∷ 0x80 ∷ []

feed-Limited_example :
    let r =
      feed_rtp mean seconds_of plus leb ltb 0 second customer 4000
        (codes "198.51.100.2")
        12000
        speech
        tracker
        demux in
    Limited (customer ∷ []) 4 (r.0, r.2)
feed-Limited_example =
    feed-Limited mean seconds_of plus leb ltb 0 second customer 4000 (codes "198.51.100.2") 12000
      speech tracker demux tt

-- A listener that keeps what it is given.
abbrev listen : Stream ℕ → Bytes → Option CallInfo → List Bytes → List Bytes × Bool
listen st pcm call heard = (pcm ∷ heard, false)

abbrev go_on : List Bytes → List Bytes × Bool
go_on heard = (heard, false)

abbrev AtMostRing : List Bytes → Type 0
AtMostRing heard = All (λ pcm. length pcm ≤ 4) heard

abbrev pub spoken : Packet
spoken = record {
  ts = second;
  src = customer;
  sport = 4000;
  dst = codes "198.51.100.2";
  dport = 12000;
  payload = speech;
}

abbrev listening : Tap ℕ (List Bytes)
listening = record { tracker = tracker; demux = demux; stats = []; world = []; stopped = false }

abbrev ignore : Packet → List Bytes → List Bytes
ignore p heard = heard

run-IsTap_example : IsTap (customer ∷ []) 4 AtMostRing (
    run listen go_on mean seconds_of plus leb ltb 0 any_text no_number as_text ignore 10000 20000
      (spoken ∷ [])
      listening)
unfolding new_tracker
run-IsTap_example =
    run-IsTap (customer ∷ []) 4 AtMostRing listen go_on
      (λ st pcm call heard given kept. (given.4, kept)) (λ heard kept. kept) mean seconds_of plus
      leb ltb 0 any_text no_number as_text ignore (λ p heard kept. kept) 10000 20000 (spoken ∷ [])
      listening (tt, tt, refl, refl, tt)

-- The audio of the packet is handed on in the size of the ring.
heard_audio :
    map length
      (run listen go_on mean seconds_of plus leb ltb 0 any_text no_number as_text ignore 10000 20000
        (spoken ∷ [])
        listening).world
    ≡ 4 ∷ []
unfolding run step on_rtp hand_over take_pcm count call_of put_stream feed_rtp feed_packet
    feed_audio audio_of feed_stream new_stream hear attribute_stream attribute call_for_media
    measure gate push_audio buffered square_sum decode_g711 gc member same_text Dict.get Dict.put
    new_tracker bump is_empty
heard_audio = refl
