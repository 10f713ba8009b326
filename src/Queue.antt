-- ===== src/Queue.antt =====
-- internal/queue/queue.go
pub mod State
pub mod Ops
pub mod Execute
pub mod Archives
pub mod Scheduler
pub mod Lifetime
pub mod Events
pub mod Bounds
pub mod Rows
