-- ===== src/Validate.antt =====
-- internal/validate/validate.go: what the report says of the predictions of a replay. Accumulator is
-- the watching of the predictions, Report the numbers made of it; Counts and Promotions are about the
-- two sets of counters.
pub mod Accumulator
pub mod Counts
pub mod Promotions
pub mod Report
mod Tests
