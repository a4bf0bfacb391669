-- ===== src/Tests.antt =====
-- Concrete requests against the news board: one community, a poll with two options, one vote.
pub mod Data
pub mod Votes
pub mod Posts
pub mod Access
pub mod Notices
pub mod Journeys
pub mod Edge
pub mod Races
pub mod Shown
