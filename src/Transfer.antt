-- ===== src/Transfer.antt =====
-- The server's task and the client's task on the two ends of a connection.
pub mod Packets
pub mod Reply
pub mod Sender
pub mod Overrun
pub mod Arrival
pub mod Whole
pub mod Fetch
