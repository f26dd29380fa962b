-- ===== src/Assisant.antt =====
-- src/Assisant.h and src/Assisant.cpp: the parser of messages, the commands of the users, the files
-- and the callbacks.
pub mod Parser
pub mod Commands
pub mod CachedView
pub mod Directory
pub mod Replies
pub mod Events
pub mod Frame
pub mod Observe
pub mod Outage
pub mod Discovery
pub mod Files
pub mod Callbacks
pub mod Start
pub mod Agreement
pub mod Answers
pub mod Info
pub mod Avatar
pub mod Transfer
pub mod Upkeep
pub mod Savedata
pub mod Profile
pub mod Presence
pub mod Persistence
pub mod Reconnect
pub mod Records
pub mod Running
pub mod Timer
