-- ===== src/Server.antt =====
-- internal/api: the REST server over the tasks, the skills, the tools and the language model.
pub mod Handlers
pub mod Writes
pub mod Approvals
pub mod Deletions
