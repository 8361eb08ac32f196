-- ===== src/Store.antt =====
-- The videos table of migrations/001_init.sql and the statements of shared/db/videos.sql.go over it
-- (their texts are sqlc/queries/videos.sql). A uuid is its 128-bit value, a timestamp a number of
-- nanoseconds, and a nullable column an Option. The table is the list of its rows.
-- A statement answers with a row, with sql.ErrNoRows, or with another error.
pub mod Row
pub mod Table
pub mod Statements
pub mod Checks
pub mod Life
pub mod Replies
pub mod Tests
