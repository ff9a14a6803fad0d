-- ===== src/Matcher.antt =====
-- phraseguard/matcher.py
pub mod Levenshtein
pub mod Normalize
pub mod Phrases
pub mod Window
pub mod Scorer
pub mod Spans
pub mod Select
pub mod Index
pub mod Scan
pub mod Loading
pub mod Tests
