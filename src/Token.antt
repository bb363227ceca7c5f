-- ===== src/Token.antt =====
-- src/token.ts and src/tokenStore.ts: tokens, their store, issuance, the Enforcement Gateway,
-- revocation and lineage.
pub mod Access
pub mod Issue
pub mod Enforce
pub mod Revoke
pub mod Lineage
pub mod Sound
