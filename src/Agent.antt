-- ===== src/Agent.antt =====
-- internal/agent: the diagnosis agent, its memory and its skills.
pub mod Types
pub mod Memory
pub mod Skill
pub mod RootCause
pub mod Answers
pub mod Engine
pub mod Loop
pub mod Context
pub mod EventStore
pub mod Stored
pub mod KnowledgeBase
pub mod Mocks
pub mod Rules
pub mod Safety
pub mod Approval
pub mod Repetition
pub mod Protocol
pub mod Limits
pub mod Conversation
pub mod SkillManager
pub mod Fallbacks
pub mod Matching
pub mod Registered
pub mod SkillLoader
pub mod Inheritance
pub mod Fuel
