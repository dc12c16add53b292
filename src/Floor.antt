-- ===== src/Floor.antt =====
-- src/clubs/services/waitlist-seating.service.ts: the waitlist, the tables of the club, and the
-- seating of a player, in one module for each group of operations. An event that a service emits
-- after its writes goes to the sockets and changes no row.
pub mod Format
pub mod Waitlist
pub mod Tables
pub mod Seating
pub mod Sound
