-- ===== src/Storage.antt =====
-- internal/storage/storage.go: the data and the in-memory backend `MemoryStorage`, a component to
-- each child module.
pub mod Types
pub mod Keys
pub mod Lightning
pub mod Recovery
pub mod Consents
pub mod Passkeys
pub mod Frost
pub mod Grants
pub mod Tokens
pub mod Policies
pub mod Requests
pub mod Secrets
pub mod Seals
pub mod WebSessions
pub mod Users
