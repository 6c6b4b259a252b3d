-- ===== src/Condition.antt =====
-- Ranges of values and patterns of texts: common/include/danejoe/condition. The templates stand on the
-- comparisons of their value type only; here it is an unsigned integer type.
pub mod Endpoint
pub mod Interval
pub mod Range
pub mod Text
