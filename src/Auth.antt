-- ===== src/Auth.antt =====
-- auth/: tokens that hold a user and the time at which they were made. Varint is the format of the
-- time, Token the token.
pub mod Varint
pub mod Token
mod Examples
