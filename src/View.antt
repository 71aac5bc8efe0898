-- ===== src/View.antt =====
-- The text user interface of a client: src/view-client.cpp and include/remy/view-client.hpp.
pub mod Dents
pub mod State
pub mod Panels
pub mod Modals
pub mod Main
pub mod Texts
pub mod Events
pub mod Initial
pub mod Session
