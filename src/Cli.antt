-- ===== src/Cli.antt =====
-- The command line program and its services, src/.
pub mod ResultPipe
pub mod Tests
