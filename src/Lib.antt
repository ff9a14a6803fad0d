-- ===== src/Lib.antt =====
-- PhraseGuard watches the calls of a SIP border element: it reads what is said, matches it against a
-- corpus of phrases, and hangs up the calls on which a fraud script is read. This library models the
-- parts that decide.
--
-- How the parts interact: recognised text goes into the transcript window of its call, which
-- normalises it; the matcher scores the spans that the new words complete against the phrases that
-- the index wakes, with edit distance and phonetic codes; accepted matches are hits of the window,
-- from which the Tier B scorer takes its verdict; a Tier A match goes to the actuator, which resolves
-- the Call-ID to a channel and asks Asterisk to end it; each event is counted for its customer.
-- The audio comes from the packet tap, which reads a capture from a pipe: SIP signalling gives the
-- calls and the ports they negotiated, RTP gives the audio of the customer's side behind an energy
-- gate, and the on_audio of the daemon feeds it to the recogniser and the text to the window.
--
-- phraseguard/matcher.py
--   Matcher/Normalize: normalize. Matcher/Levenshtein: levenshtein, with the recursive distance and
--   edit scripts of Reference as what it has to compute. Matcher/Phrases: Phrase and Match.
--   Matcher/Index: _build_index. Matcher/Spans: Thresholds, _score_seq, _score_brand.
--   Matcher/Scan: Matcher.match up to the raw matches. Matcher/Select: its veto, overlap suppression
--   and sorts. Matcher/Loading: Corpus.load and reload_if_changed. Matcher/Window: CallWindow.
--   Matcher/Scorer: BScorer.
-- phraseguard/metaphone.py
--   Metaphone/Word: the accessors. Metaphone/Consonants and Metaphone/Clusters: the rule of each
--   letter. Metaphone/Loop: double_metaphone, phonetic_key, phonetic_equal.
-- phraseguard/actuator.py
--   Actuator/Lines: the string methods. Actuator/Cli: AsteriskCLI.rx, with the commands that it sent;
--   Actuator/Asked tells the hangups among them. Actuator/Channels:
--   ChannelTable.refresh. Actuator/Probe: probe and probe_all. Actuator/Resolver: ChannelResolver.
--   Actuator/Hangup: Hangup.execute. Actuator/Manager: probe_ami and endpoint_map.
-- phraseguard/record.py
--   Record/Counters: CustomerCounters. Record/Counters/Saved: its load and save.
-- phraseguard/tap.py
--   Tap/G711: the tables, decode_g711 and rms_g711. Tap/Pipe: _read_exact. Tap/Capture:
--   read_pcap_stream. Tap/SipText: _header, _user, _sdp_audio. Tap/Sip: CallInfo, SipTracker and its
--   _gc. Tap/SipFeed: SipTracker.feed. Tap/Rtp: Stream, RtpDemux and its _gc. Tap/RtpFeed:
--   RtpDemux.feed. Tap/Run: the loop of Tap.run. Tap/Writing is a writer of captures, to read back.
-- phraseguard/phraseguardd.py
--   Daemon/Hits: handle_match. Daemon/Audio: on_audio. Daemon/Housekeeping: housekeeping and shutdown.
--   Daemon/Preflight: Config and the refusals of preflight. Daemon/Shadow puts on_audio behind the
--   loop of the tap, with the pruning of housekeeping between the packets.
-- Prelude holds what the components share: tests on naturals, lists, dictionaries in the order of
-- insertion, sets as lists without repetitions, texts as lists of code points, and sorting.
--
-- State is passed explicitly: an operation takes the record of its object and returns the new
-- one. Times are naturals of one fixed unit, microseconds in the tap. The points of the Tier B
-- scorer are in fixed point, which is exact for its defaults. Matching scores, rates and the
-- levels and gate of the tap are floats, and these are a parameter: of the scores only that their
-- order is transitive and total is used, as none is a NaN, and of the floats of the tap nothing.
-- The subprocess of Asterisk, int(), str.isdigit, the decoding of UTF-8, csv.reader, json and the
-- recogniser are parameters too, with nothing assumed of them but what a theorem names as its
-- hypothesis. An exception is `none` of an Option, and in the look-up of a channel, the feeds of
-- the tap and the daemon a mark beside the state that the exception leaves behind.
--
-- Fuel: bisect_left has as many rounds as the list has elements, and the loop of double_metaphone as
-- many as the word has letters; both are enough, since every round makes progress. The loop of
-- _read_exact has one read per byte asked for, as every read but the last brings a byte.
-- read_pcap_stream has a round per byte of the capture and one more, as every record takes a byte.
--
-- Not modelled: opening files and starting tcpdump, the stop functions of the reader, the
-- environment but for what preflight refuses, the log, the recogniser, signals and the lock
-- file, the reports, the stand-alone tools, and the shell scripts around them. Of the actuator,
-- the timing figures are left out.
pub mod Prelude
pub mod Matcher
pub mod Metaphone
pub mod Actuator
pub mod Record
pub mod Tap
pub mod Daemon
