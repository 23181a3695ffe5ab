-- ===== src/LanguageModel.antt =====
-- app/core/llm.py: the choice of the provider, the conversion of transcripts to the providers'
-- formats, and the calls with the fallback from Anthropic to OpenAI.
pub mod Attempt
pub mod Provider
pub mod Transcript
pub mod Vendors
pub mod Chats
pub mod Calls
mod RoundTrip
mod Latch
mod Honesty
mod Tests
