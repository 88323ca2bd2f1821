-- ===== src/Canonij.antt =====
-- rastertocanonij/src: the filter that reads the PPD and starts the filters of a job.
pub mod ParamList
pub mod Table
pub mod Settings
pub mod PrintArea
pub mod Command
pub mod Forward
mod Tests
