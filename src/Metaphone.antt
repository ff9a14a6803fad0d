-- ===== src/Metaphone.antt =====
-- phraseguard/metaphone.py
pub mod Word
pub mod Consonants
pub mod Clusters
pub mod Loop
pub mod Tests
pub mod Sounds
pub mod Codes
