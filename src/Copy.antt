-- ===== src/Copy.antt =====
-- A Copy operation: `CopySender` and `CopyReceiver` (src/client.cpp) at its ends, and the part of
-- `Server::process_copy` (src/server.cpp) that forwards the bytes between them.
pub mod Attributes
pub mod Files
pub mod Collect
pub mod Sender
pub mod Receiver
pub mod Proxy
pub mod Delivery
