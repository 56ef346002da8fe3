-- ===== src/Team.antt =====
-- internal/team: the exports of the members of a team, and their merge.
pub mod Export
pub mod Builder
pub mod Merger
pub mod Config
