-- ===== src/News/Shown.antt =====
-- What `get_post` shows of what `cast_vote` and `create_post` stored.
pub mod Voted
pub mod Unvoted
pub mod Created
