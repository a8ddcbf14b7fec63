-- ===== src/FeatureStorage.antt =====
-- framework/feature-storage.js in src: the values, counters and cooldowns that the features of a
-- group keep.
pub mod Types
pub mod Values
pub mod Migration
pub mod Counters
pub mod Cooldowns
pub mod Sealing
pub mod Bounds
pub mod Exclusion
pub mod Capacity
pub mod Changes
pub mod Quota
pub mod Reads
pub mod RoundTrip
mod Tests
