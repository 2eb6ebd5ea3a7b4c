-- ===== src/Bookings.antt =====
-- apps/api/src/bookings: the state machine of a booking, the hold, the re-arm at checkout, the
-- cancellation, and the equipment that is out at once.
pub mod StateMachine
pub mod Expiry
pub mod Outcomes
pub mod Trail
pub mod Kept
pub mod Creation
pub mod Expired
pub mod Keeps
pub mod Equipment
pub mod SweepLine
pub mod Service
pub mod Scope
pub mod Checkout
pub mod Cancel
pub mod Hold
pub mod Sound
pub mod Held
pub mod Admission
mod Tests
pub mod Final
pub mod Attempts
