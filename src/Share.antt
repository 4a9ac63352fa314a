-- ===== src/Share.antt =====
-- share/: what the HTTP handlers have in common (http.go). Query is the command of a request, Filters
-- the filters and their cascade, Reading the limit for bodies,
-- Json the bodies. Fs is fs.go.
pub mod Query
pub mod Filters
pub mod Reading
pub mod Errors
pub mod Json
pub mod Fs
mod Examples
