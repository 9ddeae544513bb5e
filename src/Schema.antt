-- ===== src/Schema.antt =====
-- internal/schema: the data and Lookup, the parser of the schema language, and the reverse analysis.
pub mod Types
pub mod Lexer
pub mod Parser
pub mod Validate
pub mod Reverse
