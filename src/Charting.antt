-- ===== src/Charting.antt =====
-- internal/charting/resolve.go: which stored match a charted match is. A name is the list of its runes.
-- Times are hours from a distant origin; none are so far apart that a Duration overflows.
pub mod People
pub mod Resolve
pub mod Found
pub mod Nearest
pub mod Complete
mod Tests
