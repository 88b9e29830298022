-- ===== src/Embedded.antt =====
-- embedded/: the database in the process, over the C library's ABI.
pub mod Memory
pub mod Abi
pub mod Handle
pub mod Records
pub mod Json
pub mod Rings
pub mod Contract
pub mod Refinement
pub mod Service
pub mod Opening
pub mod Worker
pub mod History
pub mod Library
pub mod Changes
pub mod Answers
pub mod Storage
