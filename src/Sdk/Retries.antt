-- ===== src/Sdk/Retries.antt =====
-- How often the client of sdk/ambitClient.ts tries, and what it sends.
use ambit.Common.{
  ℕ, zero, suc, ◌+◌, ◌<◌, ◌≤◌, ◌≡◌, refl, sym, ap, ◌∙◌, ◌⊎◌, inl, inr, Bool, true, false, not, ◌||◌,
  Option, none, some, [], ◌∷◌, String, ◌==◌, length, given, Bool-cases, arith, template,
}
use ambit.Platform.{Platform}
use ambit.Sdk.{
  AmbitClientError, AmbitClient, RequestTokenParams, HttpRequest, FetchOutcome, Sent, is_retryable,
  lacks_credential, missing_credential_message, request_of, settle, after_attempt, send_attempts,
  send, request_token, claim_token_secret,
}

-- A series of attempts with these outcomes, of which at most `most` are made.
pub record Run {P : Type 0} (outcome : ℕ → AmbitClientError ⊎ Option P) (most : ℕ) (sent : Sent P)
    : Type 0 where
  pub bounded : length sent.0 ≤ most
  pub tried : 0 < most → 0 < length sent.0
  -- every attempt but the last one failed in a way that another may mend
  pub retried :
      (i : ℕ)
      → suc i < length sent.0
      → (e : AmbitClientError) × (outcome i ≡ inl e) × (is_retryable e ≡ true)
  -- and the last one's outcome is the call's
  pub ends : (i : ℕ) → length sent.0 ≡ suc i → sent.1 ≡ outcome i

module _ {P : Type 0} where
  one-Run :
      (outcome : ℕ → AmbitClientError ⊎ Option P) (most : ℕ) (request : HttpRequest)
      (o : AmbitClientError ⊎ Option P)
      → outcome 0 ≡ o
      → Run outcome (suc most) (request ∷ [], o)
  one-Run outcome most request o h = record {
    bounded = omega arith;
    tried = λ _. omega arith;
    retried = λ i lt. absurd (omega (arith, lt));
    ends = λ i eq. sym h ∙ ap outcome (omega (arith, eq));
  }

  more-Run :
      (outcome : ℕ → AmbitClientError ⊎ Option P) (most : ℕ) (request : HttpRequest)
      (e : AmbitClientError) (rest : Sent P)
      → outcome 0 ≡ inl e
      → is_retryable e ≡ true
      → 0 < most
      → Run (λ i. outcome (suc i)) most rest
      → Run outcome (suc most) (request ∷ rest.0, rest.1)
  more-Run outcome most request e rest h retry left run = record {
    bounded = omega (arith, run.bounded);
    tried = λ _. omega arith;
    retried = again;
    ends = last;
  }
    where
      again :
          (i : ℕ)
          → suc i < suc (length rest.0)
          → (x : AmbitClientError) × (outcome i ≡ inl x) × (is_retryable x ≡ true)
      again zero lt = (e, h, retry)
      again (suc i) lt = run.retried i (omega (arith, lt))

      last : (i : ℕ) → suc (length rest.0) ≡ suc i → rest.1 ≡ outcome i
      last zero eq = absurd (omega (arith, eq, run.tried left))
      last (suc i) eq = run.ends i (omega (arith, eq))

  after_attempt-Run :
      (outcome : ℕ → AmbitClientError ⊎ Option P) (left : ℕ) (request : HttpRequest)
      (o : AmbitClientError ⊎ Option P) (rest : Sent P)
      → outcome 0 ≡ o
      → Run (λ i. outcome (suc i)) left rest
      → Run outcome (suc left) (after_attempt request (left == 0) o rest)
  unfolding after_attempt
  after_attempt-Run outcome left request (inr payload) rest h run =
      one-Run outcome left request (inr payload) h
  after_attempt-Run outcome left request (inl e) rest h run =
      elim (Bool-cases (not (is_retryable e) || left == 0)) [
        | inl stop ↦ rw stop (one-Run outcome left request (inl e) h)
        | inr on ↦
            rw on
              (more-Run outcome left request e rest h (ground (arith, on)) (ground (arith, on)) run)
      ]

module _ {P : Type 0} (pf : Platform) (error_of : P → Option String) where
  send_attempts-Run :
      (client : AmbitClient) (method path : String) (request : HttpRequest)
      (fetched : ℕ → FetchOutcome P) (outcome : ℕ → AmbitClientError ⊎ Option P) (left attempt : ℕ)
      → ((i : ℕ) → outcome i ≡ settle pf error_of client method path (fetched (i + attempt)))
      → Run outcome left (send_attempts pf error_of client method path request fetched left attempt)
  unfolding send_attempts
  send_attempts-Run client method path request fetched outcome zero attempt h = record {
    bounded = omega arith;
    tried = λ lt. lt;
    retried = λ i lt. absurd (omega (arith, lt));
    ends = λ i eq. absurd (omega (arith, eq));
  }
  send_attempts-Run client method path request fetched outcome (suc left) attempt h =
      let at : ℕ → AmbitClientError ⊎ Option P =
        λ n. settle pf error_of client method path (fetched n) in
      after_attempt-Run outcome left request (at attempt) _ (h 0 ∙ ap at (omega arith)) (
        send_attempts-Run client method path request fetched (λ i. outcome (suc i)) left
          (attempt + 1) (λ i. h (suc i) ∙ ap at (omega arith)))

  -- A call that lacks a credential that it needs sends nothing, and fails with status 0. Any other
  -- sends at most as many requests as it is given attempts, and at least one; it goes on only after
  -- an error of status 0 or of 500 and above, never after a 4xx, and ends as its last attempt does.
  pub send-tries :
      (client : AmbitClient) (method path : String) (body : Option String) (most : ℕ)
      (needed : Bool) (fetched : ℕ → FetchOutcome P)
      → ((lacks_credential needed client.agent_credential ≡ true)
          × (send pf error_of client method path body most needed fetched ≡ (
            [],
            inl (record { message = missing_credential_message method path; status = 0 }),
          )))
        ⊎ ((lacks_credential needed client.agent_credential ≡ false)
            × Run
                (λ i. settle pf error_of client method path (fetched i))
                most
                (send pf error_of client method path body most needed fetched))
  unfolding send
  send-tries client method path body most needed fetched =
      elim (Bool-cases (lacks_credential needed client.agent_credential)) [
        | inl e ↦ inl (e, rw e refl)
        | inr e ↦
            let at : ℕ → AmbitClientError ⊎ Option P =
              λ n. settle pf error_of client method path (fetched n) in
            inr (
              e,
              rw e (
                  send_attempts-Run client method path (request_of client method path body needed)
                    fetched at most 0 (λ i. ap at (omega arith))),
            )
      ]

  send-capped :
      (client : AmbitClient) (method path : String) (body : Option String) (most : ℕ)
      (needed : Bool) (fetched : ℕ → FetchOutcome P)
      → length (send pf error_of client method path body most needed fetched).0 ≤ most
  send-capped client method path body most needed fetched =
      elim (send-tries client method path body most needed fetched) [
        | inl (e, same) ↦ rw same (omega arith)
        | inr (e, run) ↦ run.bounded
      ]

  module _ (json_params : RequestTokenParams → String) (encode : String → String) where
    -- A token is asked for once at most, unless the caller gave an idempotency key; a secret is
    -- claimed once at most.
    pub request_token-once :
        (client : AmbitClient) (params : RequestTokenParams) (id : String)
        (fetched : ℕ → FetchOutcome P)
        → given params.idempotency_key ≡ false
        → (length (request_token pf error_of json_params encode client params fetched).0 ≤ 1)
          × (length (claim_token_secret pf error_of json_params encode client id fetched).0 ≤ 1)
    unfolding request_token claim_token_secret
    request_token-once client params id fetched h = (
      rw h (send-capped client "POST" "/requests" (some (json_params params)) 1 true fetched),
      send-capped client "POST" (template ("/requests/" ∷ encode id ∷ "/token-secret" ∷ [])) none 1
          true fetched,
    )
