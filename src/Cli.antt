-- ===== src/Cli.antt =====
-- internal/cli: the command line client.
pub mod Watch
pub mod Client
