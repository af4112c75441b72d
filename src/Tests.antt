-- ===== src/Tests.antt =====
-- The theorems at concrete inputs: a small route table, a request, and an outside that answers.
pub mod Fixtures
pub mod Boot
pub mod Serving
pub mod Streams
pub mod Caching
pub mod Checks
pub mod Tokens
pub mod Keys
pub mod Races
pub mod Up
pub mod Down
