-- ===== src/Lib.antt =====
-- Ambit: a broker of short-lived, scoped tokens for software agents, written in TypeScript (src/).
--
-- The program's state is one audit log, the stores of tokens, policies, requests, agent identities
-- and redaction rules, a circuit breaker that the token and the policy store share, and an anomaly
-- detector. A token request is submitted, decided by a human approver, and turns into a token whose
-- secret the requester claims once; a token is checked at the Enforcement Gateway, delegated to a
-- narrower one, or revoked with everything below it. Behind the gateway stand customer data, which a rule redacts field by field, and
-- mock endpoints. Every one of these calls writes to the audit log. Agents register for a credential,
-- operators log in with a password and a one-time code for a signed session, and a client library
-- sends the requests.
--
-- Which file models which part:
--   Common, Records         shared functions on lists, texts, maps and integers; the data records
--   Platform                what comes from outside: node:crypto, Buffer, the clock, JSON, dates
--   Breaker                 src/circuitBreaker.ts
--   Limiter                 src/rateLimiter.ts
--   Anomaly                 src/anomalyDetector.ts
--   Audit                   src/auditLog.ts, on the line mechanics of src/jsonlStore.ts
--   Store                   the maps with a file of src/tokenStore.ts, src/policy.ts and
--                           src/requestStore.ts, on src/jsonlStore.ts
--   Password                src/passwordHash.ts
--   World                   the shared state as src/server.ts wires it, and the actions on it
--   Token                   src/token.ts: Access (src/tokenStore.ts), Issue (issueToken), Enforce
--                           (enforceToken), Revoke (revokeToken, cascadeRevoke), Lineage
--                           (getTokenLineage)
--   Delegation              src/delegation.ts
--   Requests                src/tokenRequest.ts: Submit (requestToken), Decide (approveRequest,
--                           denyRequest, checkRequestTimeout), Claim (claimTokenSecret)
--   Policies                createPolicy and modifyPolicy of src/policy.ts
--   Agents                  src/agentIdentity.ts
--   Totp                    src/totp.ts: Base32 (base32Encode, base32Decode), the codes, TotpVerifier
--   Sessions                src/sessionToken.ts, src/timingSafeCompare.ts
--   Operators               src/operatorDirectory.ts
--   Redaction               src/redaction.ts
--   Customers               src/customerData.ts, src/customerDataAccess.ts
--   Endpoints               src/mockEndpoints.ts, src/mockEndpointAccess.ts
--   Sdk                     sdk/ambitClient.ts
--   Routes                  src/server.ts: the guards of the routes, the routes behind them (Calls, Data)
--                           and Login
--   Service                 the interleavings of the calls on the shared state
--   Tests                   runs at concrete data
--
-- A method is an action: a function from the state to its result, returned or thrown, and the state
-- after it. What it wrote before a throw stays written. A method that awaits the hash of a new secret
-- is two actions, and what stands between them is any other call. Times are milliseconds as natural
-- numbers; a number of seconds in a request is an integer, since the code guards against negative
-- ones. Numbers are exact: JavaScript's doubles are exact for integers below 2 ^ 53, and fractional
-- inputs are not modelled. A Date is its time value; the numbers above 8.64e15 stand for an Invalid
-- Date, and the code that makes one or compares with one (issueToken) says so;
-- the clock stays below that. A map is an association list in insertion order. A file is the list of
-- its lines; a write to it does not fail.
--
-- The recursions and loops without a bound of their own take fuel. The cascade of a revocation has one unit more than there are tokens in
-- the store: each nested call is about an active token that was just revoked, so a chain of nested
-- calls is no longer than the store. Running out of fuel is an error of its own (`stack_overflow`), not
-- a result. The lineage loop has the same amount, and gives no lineage when it is used up. The inner
-- loop of base32Encode takes as many rounds as there are bits, of which each takes five, and its
-- padding loop seven, the most that a multiple of eight can need. The retry loops count their attempts.
--
-- What crypto, Buffer and JSON are documented to do is a hypothesis where a theorem needs it: HexLaws,
-- DrawLaws and SessionLaws, which Tests/Lawful satisfies. What a timer or a `fetch` does is a parameter.
--
-- Not modelled: of src/server.ts the parsing of HTTP, the general rate limit, the start from the
-- configured files, the routes that read one item and POST /tokens/:id/access; buildOtpAuthUri of
-- src/totp.ts, the logger, the command line scripts and the console's pages.
pub mod Common
pub mod Breaker
pub mod Limiter
pub mod Anomaly
pub mod Records
pub mod Platform
pub mod Audit
pub mod Store
pub mod Password
pub mod World
pub mod Token
pub mod Delegation
pub mod Requests
pub mod Policies
pub mod Agents
pub mod Totp
pub mod Sessions
pub mod Operators
pub mod Redaction
pub mod Customers
pub mod Endpoints
pub mod Sdk
pub mod Routes
pub mod Service
pub mod Tests
