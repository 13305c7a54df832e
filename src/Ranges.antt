-- ===== src/Ranges.antt =====
-- Fetching a header by growing ranges: src/jaull/metadata/range_reader.py.
pub mod Client
pub mod Fetch
pub mod Capped
pub mod Bounded
pub mod Found
