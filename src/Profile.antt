-- ===== src/Profile.antt =====
-- services/profile-service: the scenarios that companions offer, and their media.
pub mod Vo
pub mod Aggregates
pub mod Repositories
pub mod Commands
