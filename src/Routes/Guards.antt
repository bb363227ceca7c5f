-- ===== src/Routes/Guards.antt =====
-- Nobody passes the guards of src/server.ts unverified, and a refusal changes nothing but the count of
-- the clock's readings.
use ambit.Common.{ℕ, ◌+◌, ◌≡◌, refl, ◌⊎◌, inl, inr, Option, none, some, String, str_eq, Bool-cases}
use ambit.Records.{AgentIdentity}
use ambit.Platform.{Platform}
use ambit.World.{World, Result, ok, read_clock}
use ambit.Agents.{authenticate_agent}
use ambit.Sessions.{SessionTokenConfig, SessionVerifyResult, valid, invalid, verify_session_token}
use ambit.Routes.{
  Response, failed, Handler, bearer_token, with_session, require_session, with_agent,
  require_agent_credential,
}

-- The clock was read, or not; nothing else changed.
abbrev pub IsUntouched : World → World → Type 0
IsUntouched after before =
    (after ≡ before) ⊎ (after ≡ record before { clock_reads = before.clock_reads + 1 })

module _ {A : Type 0} (pf : Platform) (header : Option String) (w : World) where
  -- A request that a guard refused.
  pub record Refused (response : Result (Response A) × World) : Type 0 where
    pub status : ℕ
    pub message : String
    pub answer : response.0 ≡ ok (failed status message)
    pub untouched : IsUntouched response.1 w

  -- A request that ran its route for the user of a session that verifies.
  pub record Admitted (config : Option SessionTokenConfig) (route : String → Handler A)
      (response : Result (Response A) × World) : Type 0 where
    pub settings : SessionTokenConfig
    pub username : String
    pub configured : config ≡ some settings
    pub verified :
        verify_session_token pf (bearer_token header) settings (pf.clock w.clock_reads)
        ≡ valid username
    pub ran : response ≡ route username (record w { clock_reads = w.clock_reads + 1 })

  with_session-cases :
      (settings : SessionTokenConfig) (route : String → Handler A) (r : SessionVerifyResult)
      → verify_session_token pf (bearer_token header) settings (pf.clock w.clock_reads) ≡ r
      → Admitted
          (some settings)
          route
          (with_session pf route r (record w { clock_reads = w.clock_reads + 1 }))
        ⊎ Refused (with_session pf route r (record w { clock_reads = w.clock_reads + 1 }))
  unfolding with_session
  with_session-cases settings route (valid username) e = inl (record {
    settings = settings;
    username = username;
    configured = refl;
    verified = e;
    ran = refl;
  })
  with_session-cases settings route (invalid reason) e =
      inr (record { status = 401; message = _; answer = refl; untouched = inr refl })

  -- Behind `requireSession` a route runs only for the user of a session that verifies at that time
  -- under the configured secret; any other request is answered with an error, and changes nothing but
  -- the count of the clock's readings.
  pub require_session-guards :
      (config : Option SessionTokenConfig) (route : String → Handler A)
      → Admitted config route (require_session pf config header route w)
        ⊎ Refused (require_session pf config header route w)
  unfolding require_session read_clock
  require_session-guards none route =
      inr (record { status = 503; message = _; answer = refl; untouched = inl refl })
  require_session-guards (some settings) route =
      elim (Bool-cases (str_eq (bearer_token header) "")) [
        | inl e ↦ rw e (
            inr (record {
              status = 401;
              message = "missing Authorization: Bearer <token> header";
              answer = refl;
              untouched = inl refl;
            }))
        | inr e ↦ rw e (with_session-cases settings route _ refl)
      ]

  -- A request that ran its route for the subject of an agent that authenticates.
  pub record Identified (route : String → Handler A) (response : Result (Response A) × World)
      : Type 0 where
    pub identity : AgentIdentity
    pub authenticated : authenticate_agent pf (bearer_token header) w ≡ some identity
    pub ran : response ≡ route identity.subject w

  with_agent-cases :
      (route : String → Handler A) (found : Option AgentIdentity)
      → authenticate_agent pf (bearer_token header) w ≡ found
      → Identified route (with_agent pf route found w) ⊎ Refused (with_agent pf route found w)
  unfolding with_agent
  with_agent-cases route (some i) e = inl (record { identity = i; authenticated = e; ran = refl })
  with_agent-cases route none e =
      inr (record { status = 401; message = _; answer = refl; untouched = inl refl })

  -- Behind `requireAgentCredential` a route runs only for the subject of the agent whose credential
  -- the request carries; any other request is answered with an error and changes nothing.
  pub require_agent_credential-guards :
      (route : String → Handler A)
      → Identified route (require_agent_credential pf header route w)
        ⊎ Refused (require_agent_credential pf header route w)
  unfolding require_agent_credential
  require_agent_credential-guards route = elim (Bool-cases (str_eq (bearer_token header) "")) [
    | inl e ↦ rw e (
        inr (record {
          status = 401;
          message = "missing Authorization: Bearer <agentId>.<secret> header";
          answer = refl;
          untouched = inl refl;
        }))
    | inr e ↦ rw e (with_agent-cases route _ refl)
  ]
