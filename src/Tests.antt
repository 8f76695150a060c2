-- ===== src/Tests.antt =====
-- The theorems at concrete inputs, and runs of the definitions.
mod Network
mod Connections
mod Frames
mod Objects
mod Small
mod Database
mod Procedures
mod Tasks
mod Games
mod Starts
mod Streams
mod Races
mod Columns
mod Logins
mod Lifetimes
