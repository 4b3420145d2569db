-- ===== src/Server.antt =====
-- servers/python/server.py: the game server. The definitions are in the children, one for each part
-- of the file; the proofs are in the modules below them.
pub mod Room
pub mod World
pub mod Stream
pub mod Args
pub mod Pace
mod Tests
