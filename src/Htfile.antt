-- ===== src/Htfile.antt =====
-- htfile/: the handler for files. Paths has the path of a request in the root.
pub mod Paths
pub mod Io
pub mod Files
pub mod Request
pub mod Properties
pub mod Members
pub mod Changes
pub mod Handlers
pub mod Serve
pub mod Confinement
pub mod Termination
pub mod Copying
pub mod Putting
pub mod Ownership
mod Examples
mod ServeExamples
mod CopyExamples
