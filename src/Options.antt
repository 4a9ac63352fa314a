-- ===== src/Options.antt =====
-- options.go: the settings of the program. Parse has how they are put together.
pub mod Parse
pub mod Fields
pub mod Reading
mod Examples
mod ReadingExamples
