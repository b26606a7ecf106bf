-- ===== src/Tests.antt =====
-- The theorems of the other modules at concrete trackers, actors, tasks, addresses and connections.
mod Fixtures
mod Tracker
mod Actor
mod Tasks
mod Web
mod Streams
mod Worlds
mod Endings
mod Family
mod Servers
mod Threads
mod Samples
