-- ===== src/Server.antt =====
-- serve.go: how the server is put together, started, and stopped.
pub mod Handler
pub mod Routes
pub mod Start
pub mod Keys
mod Examples
