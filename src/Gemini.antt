-- ===== src/Gemini.antt =====
-- src/packages/sdk/llm_client.py: the schema that is sent (Schema) and class GeminiClient (Client).
-- HTTP, JSON, the recursion limit, the schema of a class and its validation are parameters.
mod Schema
mod Client
pub mod Acyclic
pub mod Reading
pub mod Generation
unfoldable pub use Schema.*
pub use Client.*
