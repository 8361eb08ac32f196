-- ===== src/Gateway.antt =====
-- The HTTP gateway (api-gateway/) and the error envelope that it answers with (shared/).
pub mod Errors
pub mod Upload
pub mod Intent
pub mod Visibility
pub mod Likes
pub mod Comments
pub mod Tokens
pub mod Playlist
pub mod Detail
pub mod RateLimit
pub mod Follows
pub mod Account
pub mod Webhook
pub mod Auth
pub mod Views
pub mod Tests
