-- ===== src/Tools.antt =====
-- internal/tools: the tools of the agent, and the router over their providers.
pub mod Client
pub mod Reading
pub mod Writing
pub mod Router
pub mod Unapproved
pub mod Routing
