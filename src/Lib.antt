-- ===== src/Lib.antt =====
-- The verification library of cloistr-signer, a remote signer for Nostr (NIP-46): clients send encrypted
-- requests to a key that the signer holds, and the signer decides by the client's stored grant whether to
-- sign, encrypt or answer for it.
--
-- Parts of the program, and the files that model them:
-- * internal/storage/storage.go, `MemoryStorage`: Storage/Types (the stored structs, the errors and the
--   tables), Storage/Grants (permissions), Storage/Tokens, Storage/Policies, Storage/Requests (pending
--   requests and sessions), Storage/Secrets (bunker secrets), Storage/Users, Storage/WebSessions (sessions
--   of web users), Storage/Keys (the key table), Storage/Lightning (Lightning keys and challenges),
--   Storage/Recovery (recovery challenges), Storage/Consents (settings, consents and retained deletions),
--   Storage/Passkeys, Storage/Frost (FROST keys and shares), and Storage/Seals for
--   internal/storage/session_seal.go. A method is a function from its arguments and the table to the table
--   and its results, and its name is the method's in snake case. Each method runs under `m.mu`, so what
--   concurrent callers do is a sequence of calls: `step` and `run` of Storage/Grants/Trace,
--   Storage/Tokens/Once, Storage/Secrets/Once, Storage/Users/Fresh/Lookups, Storage/WebSessions/Logout,
--   Storage/Keys/Indexed/Calls, Storage/Lightning/Phases and Storage/Recovery/Once.
-- * internal/authguard/authguard.go and `ValidateBackupCode` of internal/auth/auth.go: Guard; and
--   internal/api/reauth.go: Guard/Reauth.
-- * internal/api, its handlers: Api/Lightning and Api/Lightning/Browser (handler_lightning.go); Api/Recovery,
--   Api/Recovery/Challenge and Api/Proof (recovery.go); Api/Identity (`resolveSigningPubkey` of handler.go)
--   and Api/Keys (its key handlers).
-- * internal/ratelimit/ratelimit.go, the limiter in memory and `AllowIP`: RateLimit.
-- * internal/bunker/bunker.go, `Parse`: Bunker.
-- * internal/discovery/selector.go and `isValidRelayURL` of internal/discovery/discovery.go: Relays.
-- * internal/signer/signer.go and internal/signer/ecdh_tag.go: Signer/Types (the request, the event and the
--   signer's state), Signer/Process (`decryptAndDispatch` from the lookup of the grant on,
--   `processRequest`), Signer/Approval (`handlePendingApproval`, `waitForAuthorization`),
--   Signer/Authorize (`isMethodAllowed`, `shouldRequireApproval`, `checkPolicyUsage`), Signer/Request
--   (`handleRequest`), Signer/Handle (proxy and FROST keys), Signer/Sign (`handleSignEvent`,
--   `handleBatchSign`), Signer/Cipher (NIP-04, NIP-44 and the ECDH tag).
-- * The other files below these state and prove the theorems. Examples holds concrete data, on which the
--   theorems are applied.
--
-- How they interact: `dispatch` looks up the grant in Storage/Grants. Signer/Process tests it with
-- Signer/Authorize, waits with Signer/Approval, or tries a secret of Storage/Secrets, and then runs
-- Signer/Request, which counts the use in Storage/Policies, stores sessions in Storage/Requests and calls
-- Signer/Sign, Signer/Cipher or Signer/Handle. Guard keeps its windows in RateLimit and its counts in
-- Storage/Users. The handlers of Api/Lightning use the tables of challenges, Lightning keys, users and web
-- sessions; those of Api/Recovery the tables of recovery challenges, settings, keys and users; those of
-- Api/Keys the key table.
--
-- Conventions:
-- * A map is an association list (Prelude/Dict); the order of its entries stands for the unspecified order
--   of Go's `range`. Pointers that two maps share are places in a heap; the heap is a function.
-- * Each reading of the clock is an argument, so a theorem holds whatever the clock shows. A time is a
--   natural number of nanoseconds since Go's zero time, and a counter a natural number: neither wraps.
-- * Loops are recursion on the list that is ranged over, so no fuel is needed. The wait for approval is
--   recursion on the list of the events that the `select` loop receives.
-- * What a caller does to a struct after it has stored it, or to one that it was handed, is not modelled,
--   save in Api/Keys, whose handlers write through the pointer to the stored key.
-- * Pubkeys are as long as the code's slices of their first characters need.
--
-- Not modelled: JSON, ciphers, signatures and elliptic-curve arithmetic, FROST ceremonies and connections
-- to upstream signers, which are the fields of `Library`, an argument of the definitions that use them;
-- password hashes and TOTP codes (`Checks`), and the parsing and the signatures of recovery proofs
-- (`RecoveryLibrary`, `ChallengeLibrary`), likewise. The Redis limiter sends scripts to a server, and the
-- SQL backends statements to a database, neither of which is in the repository. Left out for now, or mere
-- input and output: logs, metrics, the audit log, random delays and notices to administrators; the sending
-- of replies; the other HTTP handlers, relays and start-up.
pub mod Prelude
pub mod Storage
pub mod Bunker
pub mod Signer
pub mod RateLimit
pub mod Relays
pub mod Guard
pub mod Api
pub mod Examples
