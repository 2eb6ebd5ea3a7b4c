-- ===== src/Venues.antt =====
-- apps/api/src/venues/venues-admin.service.ts: what an admin of a venue writes.
pub mod Settings
pub mod Rooms
pub mod Commands
pub mod Coherent
pub mod Crossed
mod Tests
