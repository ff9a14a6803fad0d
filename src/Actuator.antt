-- ===== src/Actuator.antt =====
-- phraseguard/actuator.py: from a Call-ID to a channel and its hangup.
pub mod Lines
pub mod Cli
pub mod Asked
pub mod Channels
pub mod Probe
pub mod Live
pub mod Exact
pub mod Resolver
pub mod Resolved
pub mod Hangup
pub mod Manager
pub mod Endpoints
pub mod Tests
