-- ===== src/Tests.antt =====
-- Runs of the models of this repository's sources on small inputs.
pub mod Receiving
pub mod Sending
pub mod Tables
pub mod Servers
pub mod Requests
pub mod Whole
mod Loops
pub mod Reactors
pub mod Caches
pub mod Natives
pub mod Fetching
pub mod Failing
