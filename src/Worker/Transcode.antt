-- ===== src/Worker/Transcode.antt =====
-- HandleTranscode of transcoder-worker/transcode.go and what it calls, cut into its stages: Claim
-- takes the row and counts the attempt, Fetch downloads and inspects the source, Publish uploads
-- the variants and flips the row to READY. Retry holds what ends a failed attempt.
pub mod Attempt
pub mod Retry
pub mod Fetch
pub mod Publish
pub mod Handler
pub mod Ends
pub mod Keeps
pub mod Orphans
pub mod Ready
pub mod Budget
pub mod Attempts
pub mod Dropped
pub mod Conditions
pub mod Succeeds
