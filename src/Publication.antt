-- ===== src/Publication.antt =====
-- How tools/refactor.py publishes a report: the atomic replacement of a JSON file and the marker that
-- binds a report to its run.
pub mod Dir
pub mod Replace
pub mod Marker
