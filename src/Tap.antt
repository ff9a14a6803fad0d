-- ===== src/Tap.antt =====
-- phraseguard/tap.py: from the packets of a capture to the audio of a call.
pub mod G711
pub mod Samples
pub mod Pipe
pub mod Capture
pub mod Replay
pub mod Writing
pub mod RoundTrip
pub mod SipText
pub mod Sip
pub mod SipFeed
pub mod Swept
pub mod Tracked
pub mod Rtp
pub mod RtpFeed
pub mod Streams
pub mod Gated
pub mod Run
pub mod Kept
pub mod Attributed
pub mod Tests
