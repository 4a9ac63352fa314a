-- ===== src/Listen.antt =====
-- listen.go: the address that the server listens at.
pub mod Address
pub mod Ports
pub mod Tls
pub mod Pair
pub mod Secure
mod Examples
