-- ===== src/Protocol.antt =====
-- The messages of the connections: what one program sends and what the other one reads. A message is
-- a byte for its kind and a payload; the reader's loop switches on the byte.
pub mod Loop
pub mod Control
pub mod Requests
pub mod Browser
