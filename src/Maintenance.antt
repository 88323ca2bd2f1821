-- ===== src/Maintenance.antt =====
-- cmdtocanonij2/filter/cmdtocanonij.c: the filter that sends a maintenance command to the printer.
pub mod ReadLine
pub mod WriteBuffer
pub mod Command
mod Tests
