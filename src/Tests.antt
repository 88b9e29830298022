-- ===== src/Tests.antt =====
-- The theorems at concrete data, with test doubles for floats, cryptography and the surroundings.
mod Doubles
mod Text
mod Reading
mod Requests
mod Clients
mod Dialing
mod Shelf
mod Embedded
mod Commands
