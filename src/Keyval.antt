-- ===== src/Keyval.antt =====
-- keyval/keyval.go: the parser of key-value files is in Parser, the expansion of includes in
-- Include, and what holds of them in the other children.
pub mod Parser
pub mod Printer
pub mod Quoting
pub mod Lines
pub mod RoundTrip
pub mod Panic
pub mod Comments
pub mod Include
pub mod Expansion
pub mod Fuel
mod Examples
