-- ===== src/Pipeline.antt =====
-- The way of an alert through the program: internal/alert and internal/controller together.
pub mod Hosting
pub mod Diagnosed
pub mod EndToEnd
