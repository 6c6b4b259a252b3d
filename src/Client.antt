-- ===== src/Client.antt =====
-- The services and controllers of client/source that hold the logic of a transfer.
pub mod Block
pub mod Schedule
pub mod Transfer
