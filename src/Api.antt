-- ===== src/Api.antt =====
-- internal/api: HTTP handlers on the storage, a group of endpoints to each child module. A handler is a
-- function from the decoded request and the state to the state and the reply; a request with another
-- method or a body that does not decode is refused before it.
pub mod Lightning
pub mod Proof
pub mod Identity
pub mod Recovery
pub mod Keys
