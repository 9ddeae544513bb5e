-- ===== src/Api.antt =====
-- internal/api/api.go: the tokens, the handlers as functions of a decoded request, and the server.
pub mod Token
pub mod Handlers
pub mod Bodies
pub mod Allows
pub mod Writes
pub mod Expand
pub mod Fresh
pub mod Statuses
pub mod Server
