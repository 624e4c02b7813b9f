-- ===== src/Alert.antt =====
-- internal/alert: alerts grouped in a sliding window, and the tasks made of the groups.
pub mod Types
pub mod Names
pub mod Creator
pub mod Aggregator
pub mod Handler
pub mod Keys
pub mod ValidNames
pub mod Windows
pub mod Conservation
pub mod Collision
