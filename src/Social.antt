-- ===== src/Social.antt =====
-- src/modules/comments-base: voting and commenting, shared by solutions, problems and
-- discussions.
pub mod Votes
pub mod Comments
