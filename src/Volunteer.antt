-- ===== src/Volunteer.antt =====
-- services/volunteer: the districts, the profiles and the matching of volunteers to disasters.
pub mod Db
pub mod Districts
pub mod Broadcast
pub mod Matching
pub mod Profiles
mod Tests
