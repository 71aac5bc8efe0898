-- ===== src/Server.antt =====
-- include/remy/server.hpp and src/server.cpp: the server.
pub mod Exec
pub mod State
pub mod Keeps
pub mod Ids
pub mod Control
pub mod Channels
pub mod Browser
pub mod Copying
