-- ===== src/Score.antt =====
-- internal/score: one parsed score line. Model has the types of score.go and the scores that the
-- printer writes, Totals the counts over a score, Print its `String` methods, Scanner and
-- Normalise the two halves of parse.go, Parse the whole of it.
pub mod Model
pub mod Totals
pub mod Print
pub mod Scanner
pub mod Normalise
pub mod Parse
mod Tests
