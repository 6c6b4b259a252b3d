-- ===== src/Concurrent.antt =====
-- The containers that the threads of the program share (common/include/danejoe/concurrent/container), and
-- the timers.
pub mod Mpmc
pub mod Spsc
pub mod Timer
