-- ===== src/Simulate.antt =====
-- internal/simulate: Draw is the bracket rebuilt from its matches, Play one run of it, Anchor the serve
-- anchor, Match the chain from a point to a match.
pub mod Anchor
pub mod Draw
pub mod Play
pub mod Match
mod Tests
