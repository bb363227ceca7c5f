-- ===== src/Sdk.antt =====
-- sdk/ambitClient.ts: the client that asks a running server for tokens. Each attempt's `fetch` is
-- numbered; what comes of it is a parameter.
pub mod Retries
use ambit.Common.{
  ℕ, zero, suc, ◌+◌, Bool, true, false, not, ◌&&◌, ◌||◌, Option, none, some, List, [], ◌∷◌, String,
  ◌==◌, leb, ◌⊎◌, inl, inr, if◌then◌else◌, str_eq, given, is_some, template,
}
use Prim.Native.Char.{code}
use Prim.Native.String
use ambit.Common.Int.{ℤ, pos}
use ambit.Platform.{Platform}
use ambit.Breaker.{or_default}

pub record AmbitClientConfig : Type 0 where
  pub base_url : String
  pub agent_credential : Option String
  pub timeout_ms : Option ℕ
  pub max_attempts : Option ℕ
  pub retry_delay_ms : Option ℕ

pub record AmbitClientError : Type 0 where
  pub message : String
  pub status : ℕ

pub record RequestTokenParams : Type 0 where
  pub scope : List String
  pub ttl_seconds : ℤ
  pub policy_id : Option String
  pub idempotency_key : Option String

-- `baseUrl.replace(/\/+$/, "")`
unfoldable pub strip_slashes : String → String
strip_slashes String.[] = ""
strip_slashes (String.◌∷◌ c s) =
    let rest = strip_slashes s in if code c == b'/' && str_eq rest "" then "" else String.◌∷◌ c rest

pub record AmbitClient : Type 0 where
  pub base_url : String
  pub agent_credential : Option String
  pub timeout_ms : ℕ
  pub max_attempts : ℕ
  pub retry_delay_ms : ℕ

-- The constructor.
unfoldable pub init : AmbitClientConfig → AmbitClient
unfolding strip_slashes
init config = record {
  base_url = strip_slashes config.base_url;
  agent_credential = config.agent_credential;
  timeout_ms = or_default config.timeout_ms 5000;
  max_attempts = or_default config.max_attempts 3;
  retry_delay_ms = or_default config.retry_delay_ms 100;
}

-- What is given to `fetch`: the body as JSON text.
pub record HttpRequest : Type 0 where
  pub method : String
  pub url : String
  pub content_type : Option String
  pub authorization : Option String
  pub body : Option String

-- What comes of a `fetch`: the timer's abort, another error, or a response with its status and its
-- payload, if that is JSON.
pub data FetchOutcome (P : Type 0) : Type 0 where
  aborted : FetchOutcome P
  failed : String → FetchOutcome P
  responded : ℕ → Option P → FetchOutcome P

-- `response.ok`
abbrev pub is_ok : ℕ → Bool
is_ok status = leb 200 status && leb status 299

-- `retryable`
unfoldable pub is_retryable : AmbitClientError → Bool
is_retryable e = e.status == 0 || leb 500 e.status

-- `payload?.error ?? fallback`
abbrev pub error_or {ℓ} : {P : Type ℓ} → (P → Option String) → String → Option P → String
error_or error_of fallback none = fallback
error_or error_of fallback (some p) = elim (error_of p) [ none ↦ fallback | some m ↦ m ]

-- `requiresAgentCredential && !agentCredential`
abbrev pub lacks_credential : Bool → Option String → Bool
lacks_credential needed credential = needed && not (given credential)

-- The headers and the body of a request.
unfoldable pub request_of : AmbitClient → String → String → Option String → Bool → HttpRequest
unfolding template
request_of client method path body needed = record {
  method = method;
  url = template (client.base_url ∷ path ∷ []);
  content_type = if is_some body then some "application/json" else none;
  authorization = elim client.agent_credential [
    | none ↦ none
    | some c ↦ if needed && not (str_eq c "") then some (template ("Bearer " ∷ c ∷ [])) else none
  ];
  body = body;
}

pub missing_credential_message : String → String → String
missing_credential_message method path = template (
    method ∷ " " ∷ path
    ∷ " requires an agentCredential — configure one via AmbitClientConfig (get one from POST /agent-identities)"
    ∷ [])

-- The requests that a call sends, and how it ends.
abbrev pub Sent : Type 0 → Type 0
Sent P = List HttpRequest × (AmbitClientError ⊎ Option P)

module _ {P : Type 0} where
  -- What follows one attempt, by whether it was the last one; `rest` is what the later ones give.
  unfoldable pub after_attempt : HttpRequest → Bool → AmbitClientError ⊎ Option P → Sent P → Sent P
  unfolding is_retryable
  after_attempt request last (inr payload) rest = (request ∷ [], inr payload)
  after_attempt request last (inl e) rest =
      if not (is_retryable e) || last then (request ∷ [], inl e) else (request ∷ rest.0, rest.1)

module _ {P : Type 0} (pf : Platform) (error_of : P → Option String) where
  -- The error or the payload of one attempt.
  unfoldable pub settle :
      AmbitClient → String → String → FetchOutcome P → AmbitClientError ⊎ Option P
  unfolding template
  settle client method path aborted = inl (record {
    message = template (
        method
        ∷ " "
        ∷ path
        ∷ " timed out after "
        ∷ pf.show_number (pos client.timeout_ms)
        ∷ "ms"
        ∷ []);
    status = 0;
  })
  settle client method path (failed message) =
      inl (record {
        message = template (method ∷ " " ∷ path ∷ " failed: " ∷ message ∷ []);
        status = 0;
      })
  settle client method path (responded status payload) =
      if is_ok status
      then inr payload
      else inl (record {
        message =
            error_or error_of
              (template
                (method ∷ " " ∷ path ∷ " failed with status " ∷ pf.show_number (pos status) ∷ []))
              payload;
        status = status;
      })

  -- The loop, with `left` attempts left.
  unfoldable pub send_attempts :
      AmbitClient → String → String → HttpRequest → (ℕ → FetchOutcome P) → ℕ → ℕ → Sent P
  unfolding settle after_attempt template
  send_attempts client method path request fetched zero attempt =
      ([], inl (record { message = template (method ∷ " " ∷ path ∷ " failed" ∷ []); status = 0 }))
  send_attempts client method path request fetched (suc left) attempt =
      let rest = send_attempts client method path request fetched left (attempt + 1) in
      after_attempt request (left == 0) (settle client method path (fetched attempt)) rest

  -- `#send`
  unfoldable pub send :
      AmbitClient → String → String → Option String → ℕ → Bool → (ℕ → FetchOutcome P) → Sent P
  unfolding send_attempts request_of template
  send client method path body max_attempts needed fetched =
      if lacks_credential needed client.agent_credential
      then ([], inl (record { message = missing_credential_message method path; status = 0 }))
      else send_attempts client method path (request_of client method path body needed) fetched
          max_attempts 0

  module _ (json_params : RequestTokenParams → String)
      (encode_uri_component : String → String) where
    -- `requestToken`: retried only under an idempotency key.
    unfoldable pub request_token : AmbitClient → RequestTokenParams → (ℕ → FetchOutcome P) → Sent P
    unfolding send
    request_token client params fetched =
        send client "POST" "/requests" (some (json_params params))
          (if given params.idempotency_key then client.max_attempts else 1) true fetched

    -- `getRequest`
    unfoldable pub get_request : AmbitClient → String → (ℕ → FetchOutcome P) → Sent P
    unfolding send template
    get_request client id fetched =
        send client "GET" (template ("/requests/" ∷ encode_uri_component id ∷ [])) none
          client.max_attempts false fetched

    -- `claimTokenSecret`
    unfoldable pub claim_token_secret : AmbitClient → String → (ℕ → FetchOutcome P) → Sent P
    unfolding send template
    claim_token_secret client id fetched =
        send client "POST"
          (template ("/requests/" ∷ encode_uri_component id ∷ "/token-secret" ∷ [])) none 1 true
          fetched
