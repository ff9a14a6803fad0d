-- ===== src/Record.antt =====
-- phraseguard/record.py: the attribution of events to customers.
pub mod Counters
pub mod Tests
