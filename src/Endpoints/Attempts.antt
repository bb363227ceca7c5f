-- ===== src/Endpoints/Attempts.antt =====
-- When src/mockEndpointAccess.ts reaches an endpoint: only through the gateway, at the first attempt
-- that succeeds, and within the cap.
use ambit.Common.{
  ℕ, zero, suc, ◌+◌, ◌<◌, ◌≡◌, refl, sym, ap, ◌∙◌, subst, inl, inr, Option, none, some,
  some-injective, String, Option-cases, arith,
}
use ambit.Platform.{Platform}
use ambit.Breaker.{or_default}
use ambit.World.{World, Action, ok}
use ambit.World.Frame.{bind-eq-ok}
use ambit.World.Sound.{IsSound, pure-IsSound, bind-IsSound, record_entry-IsSound}
use ambit.Token.Access.{token_get}
use ambit.Token.Issue.Bounds.{ok-injective}
use ambit.Token.Enforce.{EnforcementDecision, allow, deny, deny_text, enforce_token}
use ambit.Token.Sound.{token_get-IsSound, enforce_token-IsSound}
use ambit.Records.{Token}
use ambit.Customers.{subject_of}
use ambit.Endpoints.{
  MockSystem, MockEndpointResult, LoopEnd, succeeded, gave_up, untried, run_attempts, AccessResult,
  reached, not_reached, not_allowed, default_max_attempts, Surroundings, action_text, log_outcome,
  settle, attempt_at, after_gate, access_mock_endpoint,
}

-- How the loop ends, over the outcomes of the attempts from the first one on; `Unset` says when it is
-- not entered.
abbrev pub Ends : Type 0 → (ℕ → Option MockEndpointResult) → ℕ → ℕ → LoopEnd → Type 0
Ends Unset outcome left first (succeeded r) =
    (i : ℕ) × (i < left)
    × (outcome (i + first) ≡ some r)
    × ((j : ℕ) → j < i → outcome (j + first) ≡ none)
Ends Unset outcome left first gave_up = (j : ℕ) → j < left → outcome (j + first) ≡ none
Ends Unset outcome left first untried = Unset

module _ (outcome : ℕ → Option MockEndpointResult) where
  earlier :
      (n first : ℕ)
      → outcome first ≡ none
      → ((j : ℕ) → j < n → outcome (j + (first + 1)) ≡ none)
      → (j : ℕ) → j < suc n
      → outcome (j + first) ≡ none
  earlier n first h k zero lt = ap outcome (omega arith) ∙ h
  earlier n first h k (suc j) lt = ap outcome (omega arith) ∙ k j (omega (arith, lt))

  one-Ends :
      (left first : ℕ) (end : LoopEnd)
      → outcome first ≡ none
      → Ends ⊥ outcome left (first + 1) end
      → Ends ⊥ outcome (suc left) first end
  one-Ends left first (succeeded r) h (i, lt, e, k) =
      (suc i, omega (arith, lt), ap outcome (omega arith) ∙ e, earlier i first h k)
  one-Ends left first gave_up h k = earlier left first h k
  one-Ends left first untried h k = k

  fails-on :
      (left first : ℕ) (end : LoopEnd)
      → outcome first ≡ none
      → run_attempts outcome (suc left) first end ≡ run_attempts outcome left (first + 1) gave_up
  unfolding run_attempts
  fails-on left first end h =
      ap
        (λ (o : Option MockEndpointResult). elim o as (λ _. LoopEnd) [
          | none ↦ run_attempts outcome left (first + 1) gave_up
          | some x ↦ succeeded x
        ])
        h

  succeeds-at :
      (left first : ℕ) (end : LoopEnd) (r : MockEndpointResult)
      → outcome first ≡ some r
      → run_attempts outcome (suc left) first end ≡ succeeded r
  unfolding run_attempts
  succeeds-at left first end r h =
      ap
        (λ (o : Option MockEndpointResult). elim o as (λ _. LoopEnd) [
          | none ↦ run_attempts outcome left (first + 1) gave_up
          | some x ↦ succeeded x
        ])
        h

  -- The first attempt succeeds.
  at-once :
      (Unset : Type 0) (left first : ℕ) (r : MockEndpointResult)
      → outcome first ≡ some r
      → Ends Unset outcome (suc left) first (succeeded r)
  at-once Unset left first r h =
      (0, omega arith, ap outcome (omega arith) ∙ h, λ j lt. absurd (omega (arith, lt)))

  run_attempts-Ends :
      (left first : ℕ) → Ends ⊥ outcome left first (run_attempts outcome left first gave_up)
  unfolding run_attempts
  run_attempts-Ends zero first = λ j lt. absurd (omega (arith, lt))
  run_attempts-Ends (suc left) first = elim (Option-cases (outcome first)) [
    | inl h ↦
        subst (Ends ⊥ outcome (suc left) first) (sym (fails-on left first gave_up h))
          (one-Ends left first _ h (run_attempts-Ends left (first + 1)))
    | inr (r, h) ↦
        subst (Ends ⊥ outcome (suc left) first) (sym (succeeds-at left first gave_up r h))
          (at-once ⊥ left first r h)
  ]

  weaken :
      (Unset : Type 0) (left first : ℕ) (end : LoopEnd)
      → Ends ⊥ outcome left first end
      → Ends Unset outcome left first end
  weaken Unset left first (succeeded r) h = h
  weaken Unset left first gave_up h = h
  weaken Unset left first untried h = absurd h

  -- The loop ends with the result of the first attempt that succeeds, gives up only if every attempt
  -- failed, and is not entered only if no attempt is allowed.
  pub run_attempts-first :
      (left : ℕ) → Ends (left ≡ 0) outcome left 0 (run_attempts outcome left 0 untried)
  unfolding run_attempts
  run_attempts-first zero = refl
  run_attempts-first (suc left) = elim (Option-cases (outcome 0)) [
    | inl h ↦
        subst (Ends (suc left ≡ 0) outcome (suc left) 0) (sym (fails-on left 0 untried h))
          (weaken (suc left ≡ 0) (suc left) 0 _ (one-Ends left 0 _ h (run_attempts-Ends left 1)))
    | inr (r, h) ↦
        subst (Ends (suc left ≡ 0) outcome (suc left) 0) (sym (succeeds-at left 0 untried r h))
          (at-once (suc left ≡ 0) left 0 r h)
  ]

module _ (pf : Platform) (token_id : String) (now : ℕ) (system : MockSystem) (verb : String) where
  -- What an access that returns tells of its attempts.
  abbrev pub Told : Surroundings → ℕ → AccessResult → Type 0
  Told env left (reached r) = Ends (left ≡ 0) (attempt_at system verb env) left 0 (succeeded r)
  Told env left not_reached = Ends (left ≡ 0) (attempt_at system verb env) left 0 gave_up
  Told env left (not_allowed code) = Unit

  -- The gateway's allowance, which every attempt needs.
  abbrev pub Allowed : String → World → AccessResult → Type 0
  Allowed secret w (not_allowed code) = Unit
  Allowed secret w _ =
      (enforce_token pf token_id secret (action_text system verb) now w).0 ≡ ok allow

  settle-Told :
      (env : Surroundings) (left : ℕ) (subject : String) (end : LoopEnd) (w : World)
      (r : AccessResult)
      → Ends (left ≡ 0) (attempt_at system verb env) left 0 end
      → (settle pf token_id now system verb subject end w).0 ≡ ok (some r)
      → Told env left r
  unfolding settle
  settle-Told env left subject (succeeded x) w r h g =
      subst (Told env left) (some-injective (reached x) r (ok-injective g)) h
  settle-Told env left subject gave_up w r h g =
      subst (Told env left) (some-injective not_reached r (ok-injective g)) h
  settle-Told env left subject untried w r h g =
      let same : none ≡ some r = ok-injective g in absurd (cc same)

  after_gate-Told :
      (env : Surroundings) (most : Option ℕ) (secret : String) (d : EnforcementDecision)
      (v w : World) (r : AccessResult)
      → (enforce_token pf token_id secret (action_text system verb) now v).0 ≡ ok d
      → (after_gate pf token_id now system verb env most d w).0 ≡ ok (some r)
      → Allowed secret v r × Told env (or_default most default_max_attempts) r
  unfolding after_gate
  after_gate-Told env most secret (deny code message) v w r e g =
      let denied : not_allowed (deny_text code) ≡ r = some-injective _ r (ok-injective g) in
      subst (λ x. Allowed secret v x × Told env (or_default most default_max_attempts) x) denied
        (tt, tt)
  after_gate-Told env most secret allow v w r e g =
      let left = or_default most default_max_attempts in
      let end = run_attempts (attempt_at system verb env) left 0 untried in
      let last : Option Token → Action (Option AccessResult) =
        λ t. settle pf token_id now system verb (subject_of t) end in
      let (t, read, rest) = bind-eq-ok (token_get pf token_id) last w _ g in
      (
        allowed_any r e,
        settle-Told env left (subject_of t) end (token_get pf token_id w).1 r
            (run_attempts-first (attempt_at system verb env) left) (ap (λ x. x.0) (sym rest) ∙ g),
      )
    where
      allowed_any :
          (x : AccessResult)
          → (enforce_token pf token_id secret (action_text system verb) now v).0 ≡ ok allow
          → Allowed secret v x
      allowed_any (reached y) h = h
      allowed_any not_reached h = h
      allowed_any (not_allowed code) h = tt

  -- An access that returns and was not denied passed the gateway. It was reached with the result of the
  -- first attempt that succeeded, or given up after every allowed attempt had failed.
  pub access_mock_endpoint-tells :
      (env : Surroundings) (most : Option ℕ) (secret : String) (w : World) (r : AccessResult)
      → (access_mock_endpoint pf token_id now system verb env most secret w).0 ≡ ok (some r)
      → Allowed secret w r × Told env (or_default most default_max_attempts) r
  unfolding access_mock_endpoint
  access_mock_endpoint-tells env most secret w r h =
      let gate = enforce_token pf token_id secret (action_text system verb) now in
      let (d, decided, rest) =
        bind-eq-ok gate (after_gate pf token_id now system verb env most) w _ h in
      after_gate-Told env most secret d w (gate w).1 r decided (ap (λ x. x.0) (sym rest) ∙ h)

  settle-IsSound :
      (subject : String) (end : LoopEnd)
      → IsSound pf (settle pf token_id now system verb subject end)
  unfolding settle log_outcome
  settle-IsSound subject (succeeded r) = search (bind-IsSound, record_entry-IsSound)
  settle-IsSound subject gave_up = search (bind-IsSound, record_entry-IsSound)
  settle-IsSound subject untried = search (pure-IsSound)

  after_gate-IsSound :
      (env : Surroundings) (most : Option ℕ) (d : EnforcementDecision)
      → IsSound pf (after_gate pf token_id now system verb env most d)
  unfolding after_gate
  after_gate-IsSound env most (deny code message) = search (pure-IsSound)
  after_gate-IsSound env most allow = search (bind-IsSound, token_get-IsSound, settle-IsSound)

  pub access_mock_endpoint-IsSound :
      (env : Surroundings) (most : Option ℕ) (secret : String)
      → IsSound pf (access_mock_endpoint pf token_id now system verb env most secret)
  unfolding access_mock_endpoint
  access_mock_endpoint-IsSound env most secret =
      search (bind-IsSound, enforce_token-IsSound, after_gate-IsSound)
