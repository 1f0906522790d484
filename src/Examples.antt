-- ===== src/Examples.antt =====
-- A concrete surrounding of the program, and the properties at concrete messages and orders.
pub mod Duplicates
pub mod Ordered
pub mod Types
pub mod Checks
pub mod Completions
pub mod Messages
pub mod Parsers
pub mod Runs
pub mod Surroundings
pub mod Texts
pub mod Totals
pub mod Journeys
pub mod Handlers
pub mod Deliveries
