-- ===== src/Daemon.antt =====
-- phraseguard/phraseguardd.py: the daemon.
pub mod Hits
pub mod Audio
pub mod Enforced
pub mod Shadow
pub mod Preflight
pub mod Housekeeping
pub mod Lasting
pub mod Tests
