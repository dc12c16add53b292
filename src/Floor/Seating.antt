-- ===== src/Floor/Seating.antt =====
-- assignSeat and unseatPlayer of src/clubs/services/waitlist-seating.service.ts: the checks, the
-- opening balance, the operations; then what is proved of them.
pub mod Checks
pub mod Opening
pub mod Notes
pub mod Assign
pub mod Inversion
pub mod Capacity
pub mod Places
pub mod Money
pub mod Posting
pub mod Opened
pub mod Worth
