-- ===== src/Sync.antt =====
-- internal/sync/scanner.go
pub mod Listing
pub mod Scanner
pub mod Loops
