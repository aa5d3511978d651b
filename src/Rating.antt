-- ===== src/Rating.antt =====
-- internal/rating: the Elo engine. Elo has the formulas and the weights, Week the weeks, Keys the
-- series and their order, Engine the replay, Store the rows read and written.
pub mod Elo
pub mod Week
pub mod Keys
pub mod Engine
pub mod Store
mod Tests
