-- ===== src/Clock.antt =====
-- app/clock: the bookings of the property management system, from a synchronisation's result to the
-- states, the intents and the events of the rooms.
pub mod Registry
pub mod Bookings
pub mod Rooms
pub mod DbSync
