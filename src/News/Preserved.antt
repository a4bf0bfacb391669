-- ===== src/News/Preserved.antt =====
-- Every operation of api/news/service.py keeps the local database consistent, whatever its
-- arguments and whatever fails.
pub mod Votes
pub mod Posts
pub mod Updates
pub mod Reads
