-- ===== src/Live.antt =====
-- The live room.
pub mod Tables
pub mod Presence
pub mod Reactions
pub mod Access
pub mod Control
pub mod Chat
pub mod State
pub mod Poll
pub mod Slides
pub mod Report
pub mod Listeners
pub mod M3u8
pub mod Playlist
