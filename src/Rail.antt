-- ===== src/Rail.antt =====
-- The payment rail, packages/rail/src: the plan of which token record pays whom.
pub mod Plan
mod Tests
