-- ===== src/Tests.antt =====
-- The theorems at concrete inputs.
mod Messages
mod Clients
mod Copying
mod Deleting
mod Views
mod Helpers
mod Hosts
mod Attributes
mod Tunnels
mod Nets
mod Rosters
