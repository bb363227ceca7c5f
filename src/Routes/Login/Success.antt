-- ===== src/Routes/Login/Success.antt =====
-- What a login that src/server.ts answers with a session rests on, and what the session is good for.
use ambit.Common.{
  ℕ, ◌+◌, ◌≡◌, refl, ap, ◌∙◌, inl, inr, true, Option, none, some, some-injective, List, String, leb,
  if◌then◌else◌, Bool-cases, length, arith,
}
use ambit.Platform.{Platform}
use ambit.Records.{Decision}
use ambit.World.{World, record_entry, write_entry}
use ambit.Limiter.{RateLimiter, RateLimitResult, check}
use ambit.Sessions.{
  SessionTokenConfig, ttl_of, valid, invalid, expired, create_session_token, verify_session_token,
}
use ambit.Sessions.Trust.{SessionLaws, verify-create_session_token}
use ambit.Operators.{OperatorIdentity, Found, find_authenticated_operator}
use ambit.Routes.{Response, sent}
use ambit.Routes.Login.{
  LoginState, OperatorSettings, Credentials, resolve_operator_identity, identities_of, answer_login,
  match_login, with_identities, login_route, limit_login, post_login, log_login,
}

module _ (pf : Platform) (config : Option SessionTokenConfig) (body : Option Credentials) where
  -- The identities, of which the credentials matched one, and the session for its user. From the
  -- reading `reads` on, the clock is read for each identity, for the audit entry and for the session.
  pub record Matched (identities : Option (List OperatorIdentity)) (reads : ℕ) (token : String)
      : Type 0 where
    pub settings : SessionTokenConfig
    pub credentials : Credentials
    pub operators : List OperatorIdentity
    pub after : List OperatorIdentity
    pub operator : OperatorIdentity
    pub set_up : config ≡ some settings
    pub given : body ≡ some credentials
    pub known : identities ≡ some operators
    pub matched :
        find_authenticated_operator pf credentials.username credentials.password
          credentials.totp_code
          (λ i. pf.clock (reads + i))
          operators
        ≡ some (after, some operator)
    pub session :
        token
        ≡ create_session_token pf operator.username settings
            (pf.clock (reads + length operators + 1))

-- A response that carries a session.
Sends : Option (Response String) × LoginState → String → Type 0
Sends r token = r.0 ≡ some (sent 200 token)

module _ (pf : Platform) where
  failed-sends : (n : ℕ) (m token : String) → some (Response.failed n m) ≡ some (sent 200 token) → ⊥
  failed-sends n m token h =
      let same : Response.failed n m ≡ sent 200 token = some-injective _ _ h in cc same

  sent-token : (a b : String) → some (Response.sent 200 a) ≡ some (sent 200 b) → b ≡ a
  sent-token a b h = let same : Response.sent 200 a ≡ sent 200 b = some-injective _ _ h in cc same

  log_login-reads :
      (subject : String) (d : Decision) (reason : Option String) (w : World)
      → (log_login pf subject d reason w).clock_reads ≡ w.clock_reads + 1
  unfolding log_login record_entry write_entry
  log_login-reads subject d reason w = ground arith

  match_login-Matched :
      (settings : SessionTokenConfig) (c : Credentials) (operators : List OperatorIdentity)
      (reads : ℕ) (s : LoginState) (found : Option Found) (token : String)
      → find_authenticated_operator pf c.username c.password c.totp_code
          (λ i. pf.clock (reads + i))
          operators
        ≡ found
      → s.world.clock_reads ≡ reads + length operators
      → (answer_login pf settings c.username s found).0 ≡ some (sent 200 token)
      → Matched pf (some settings) (some c) (some operators) reads token
  unfolding answer_login
  match_login-Matched settings c operators reads s none token e q h = absurd (cc)
  match_login-Matched settings c operators reads s (some (after, none)) token e q h =
      absurd (failed-sends 401 _ token h)
  match_login-Matched settings c operators reads s (some (after, some o)) token e q h =
      let at = log_login-reads o.username Decision.allowed none s.world ∙ ap (λ n. n + 1) q in
      record {
        settings = settings;
        credentials = c;
        operators = operators;
        after = after;
        operator = o;
        set_up = refl;
        given = refl;
        known = refl;
        matched = e;
        session =
            sent-token _ token h
            ∙ ap (λ n. create_session_token pf o.username settings (pf.clock n)) at;
      }

  with_identities-Matched :
      (config : Option SessionTokenConfig) (identities : Option (List OperatorIdentity))
      (body : Option Credentials) (s : LoginState) (token : String)
      → (with_identities pf config identities body s).0 ≡ some (sent 200 token)
      → Matched pf config body identities s.world.clock_reads token
  unfolding with_identities match_login
  with_identities-Matched (some settings) (some operators) (some c) s token h =
      let reads = s.world.clock_reads in
      let read : LoginState = record s {
        world = record s.world { clock_reads = reads + length operators };
      } in
      match_login-Matched settings c operators reads read _ token refl refl h
  with_identities-Matched (some settings) (some operators) none s token h =
      absurd (failed-sends 400 _ token h)
  with_identities-Matched (some settings) none body s token h = absurd (failed-sends 503 _ token h)
  with_identities-Matched none identities body s token h = absurd (failed-sends 503 _ token h)

  -- What a login rests on: the limiter let it through, and the credentials matched one of the
  -- configured identities.
  pub record LoggedIn (client : String) (config : Option SessionTokenConfig)
      (primary backup : OperatorSettings) (body : Option Credentials) (s : LoginState)
      (token : String) : Type 0 where
    pub let_through : (check client (pf.clock s.world.clock_reads) s.limiter).1.allowed ≡ true
    pub matched :
        let (p, cache) = resolve_operator_identity primary s.verifiers in
        Matched pf config body
          (identities_of p (resolve_operator_identity backup cache).0)
          (s.world.clock_reads + 1)
          token

  limit_login-sends :
      (answer : RateLimiter × RateLimitResult) (s : LoginState)
      (route : LoginState → Option (Response String) × LoginState) (token : String)
      → (limit_login pf answer s route).0 ≡ some (sent 200 token)
      → (answer.1.allowed ≡ true)
        × ((route (record s { limiter = answer.0 })).0 ≡ some (sent 200 token))
  unfolding limit_login
  limit_login-sends (limiter, result) s route token h = elim (Bool-cases result.allowed) [
    | inl e ↦ (e, rw e at h)
    | inr e ↦ absurd (failed-sends 429 _ token (rw e at h))
  ]

  post_login-LoggedIn :
      (client : String) (config : Option SessionTokenConfig) (primary backup : OperatorSettings)
      (body : Option Credentials) (s : LoginState) (token : String)
      → (post_login pf client config primary backup body s).0 ≡ some (sent 200 token)
      → LoggedIn client config primary backup body s token
  unfolding post_login login_route
  post_login-LoggedIn client config primary backup body s token h =
      let read : LoginState = record s {
        world = record s.world { clock_reads = s.world.clock_reads + 1 };
      } in
      let answer = check client (pf.clock s.world.clock_reads) s.limiter in
      let (p, cache) = resolve_operator_identity primary s.verifiers in
      let (b, cache') = resolve_operator_identity backup cache in
      let (passed, rest) =
        limit_login-sends answer read (login_route pf config primary backup body) token h in
      record {
        let_through = passed;
        matched =
            with_identities-Matched config (identities_of p b) body
              (record read { limiter = answer.0; verifiers = cache' }) token rest;
      }

  -- A session that the login route hands out was let through by the rate limit and was given for the
  -- name, password and one-time code of a configured operator, the code at the clock's readings of
  -- this login (one for each identity, after the limiter's). It is accepted for that operator until
  -- its lifetime has passed, counted from the login's last reading of the clock.
  pub post_login-opens :
      (laws : SessionLaws pf) (client : String) (config : Option SessionTokenConfig)
      (primary backup : OperatorSettings) (body : Option Credentials) (s : LoginState)
      (token : String)
      → (post_login pf client config primary backup body s).0 ≡ some (sent 200 token)
      → (l : LoggedIn client config primary backup body s token) × ((now : ℕ)
          → verify_session_token pf token l.matched.settings now ≡ (
              if leb
                (pf.clock (s.world.clock_reads + 1 + length l.matched.operators + 1)
                  + ttl_of l.matched.settings)
                now
              then invalid expired
              else valid l.matched.operator.username))
  post_login-opens laws client config primary backup body s token h =
      let l = post_login-LoggedIn client config primary backup body s token h in
      let m = l.matched in
      (
        l,
        λ now.
            ap (λ t. verify_session_token pf t m.settings now) m.session
            ∙ verify-create_session_token pf laws m.operator.username m.settings
                (pf.clock (s.world.clock_reads + 1 + length m.operators + 1)) now,
      )
