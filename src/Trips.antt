-- ===== src/Trips.antt =====
-- Trips: src/modules/trips/trips.service.ts.
pub mod Membership
pub mod Editing
pub mod Listing
pub mod History
pub mod Standing
pub mod Lifecycle
