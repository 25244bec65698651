-- ===== src/Signer.antt =====
-- internal/signer: the NIP-46 remote signer, from a decrypted request to its reply.
pub mod Types
pub mod Sign
pub mod Cipher
pub mod Authorize
pub mod Handle
pub mod Request
pub mod Approval
pub mod Process
