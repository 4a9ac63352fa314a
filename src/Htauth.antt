-- ===== src/Htauth.antt =====
-- htauth/: the filter that authenticates requests. Request has what a request brings, Creds where its
-- credentials come from, Filter the filter.
pub mod Request
pub mod Creds
pub mod Filter
mod Examples
