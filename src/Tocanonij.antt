-- ===== src/Tocanonij.antt =====
-- tocanonij/src/main.c: the filter that wraps the pages into the printer's commands.
pub mod Names
pub mod Options
pub mod Job
pub mod Pages
mod Tests
