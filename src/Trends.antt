-- ===== src/Trends.antt =====
-- internal/trend/trend.go: day buckets, batches and recurrences. A time is a number of nanoseconds
-- since 1970, so that days in UTC are quotients.
pub mod Buckets
pub mod Patterns
mod Tests
