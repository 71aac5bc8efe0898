-- ===== src/Serde.antt =====
-- include/remy/serde.hpp: the templates `send` and `recv`. What `send` writes is the list of its
-- bytes. `recv` reads from the bytes that the peer writes before it closes; where they end early
-- `asio::async_read` throws, which is `none`.
pub mod Bytes
pub mod Containers
pub mod Structs
pub mod Shrinks
