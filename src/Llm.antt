-- ===== src/Llm.antt =====
-- internal/llm: the provider that speaks the OpenAI protocol, and the router over the providers.
pub mod Backoff
pub mod Attempts
pub mod OpenAi
pub mod Anthropic
pub mod Turns
pub mod Replies
pub mod Retries
pub mod Answered
pub mod Costs
pub mod Router
pub mod Serving
pub mod Providers
pub mod Mock
