-- ===== src/Connor.antt =====
-- connor: the conditions of a filter. Values, numbers, the comparisons, patterns, and the evaluation
-- of a condition on data.
pub mod Value
pub mod Compare
pub mod Like
pub mod Eq
pub mod Order
pub mod Logic
pub mod Tests
