-- ===== src/Totp/Replay.antt =====
-- The verifier of src/totp.ts accepts a time step at most once, and only near the clock's own step.
use ambit.Common.{
  ℕ, zero, suc, ◌+◌, ◌-◌, ◌*◌, ◌/◌, ◌<◌, ◌≤◌, ◌≡◌, refl, sym, ap, ◌∙◌, ◌⊎◌, inl, inr, Bool, true,
  false, Option, none, some, some-injective, String, ltb, arith, Bool-cases,
}
use ambit.Platform.{Platform}
use ambit.Totp.{
  TotpVerifier, is_used, constant_time_equal, generate_totp_code, try_candidate, try_step,
  negative_step, try_steps, verify,
}

-- The step was not used, and the code is the one generated for it.
pub record Accepts (pf : Platform) (code : String) (v : TotpVerifier) (timestep : ℕ) : Type 0 where
  pub candidate : String
  pub fresh : is_used v.last_accepted_timestep timestep ≡ false
  pub generated :
      generate_totp_code pf v.secret (timestep * v.step_seconds * 1000) v.step_seconds v.digits
      ≡ some candidate
  pub equal : constant_time_equal pf candidate code ≡ true

-- The later rounds accepted, or this step did.
Decided :
    Platform → String → TotpVerifier → ℕ → Option (TotpVerifier × Bool) → TotpVerifier → Type 0
Decided pf code v t rest v' =
    (rest ≡ some (v', true))
    ⊎ (Accepts pf code v t × (v' ≡ record v { last_accepted_timestep = some t }))

-- What a round that accepts gives.
accepting : TotpVerifier → ℕ → TotpVerifier × Bool
accepting v t = (record v { last_accepted_timestep = some t }, true)

taken :
    (v v' : TotpVerifier) (t : ℕ)
    → some (accepting v t) ≡ some (v', true)
    → v' ≡ record v { last_accepted_timestep = some t }
unfolding accepting
taken v v' t h = ap (λ x. x.0) (sym (some-injective (accepting v t) (v', true) h))

module _ (pf : Platform) (code : String) where
  try_candidate-inv :
      (v v' : TotpVerifier) (t : ℕ) (rest : Option (TotpVerifier × Bool)) (found : Option String)
      → is_used v.last_accepted_timestep t ≡ false
      → generate_totp_code pf v.secret (t * v.step_seconds * 1000) v.step_seconds v.digits ≡ found
      → try_candidate pf code t v found rest ≡ some (v', true)
      → Decided pf code v t rest v'
  unfolding try_candidate Decided accepting
  try_candidate-inv v v' t rest none fresh made h = absurd (cc)
  try_candidate-inv v v' t rest (some candidate) fresh made h =
      elim (Bool-cases (constant_time_equal pf candidate code)) [
        | inl e ↦ inr (
          record { candidate = candidate; fresh = fresh; generated = made; equal = e },
          taken v v' t (rw e at h),
        )
        | inr e ↦ inl (rw e at h)
      ]

  try_step-inv :
      (v v' : TotpVerifier) (t : ℕ) (rest : Option (TotpVerifier × Bool))
      → try_step pf code t v rest ≡ some (v', true)
      → Decided pf code v t rest v'
  unfolding try_step Decided
  try_step-inv v v' t rest h = elim (Bool-cases (is_used v.last_accepted_timestep t)) [
    | inl e ↦ inl (rw e at h)
    | inr e ↦ try_candidate-inv v v' t rest _ e refl (rw e at h)
  ]

  negative_step-inv :
      (last : Option ℕ) (rest : Option (TotpVerifier × Bool)) (v' : TotpVerifier) (ok : Bool)
      → negative_step last rest ≡ some (v', ok)
      → rest ≡ some (v', ok)
  unfolding negative_step
  negative_step-inv none rest v' ok h = absurd (cc)
  negative_step-inv (some last) rest v' ok h = h

  -- What an accepting loop found.
  Hit : ℕ → ℕ → TotpVerifier → TotpVerifier → Type 0
  Hit rounds ahead v v' =
      (t : ℕ) × Accepts pf code v t
      × (v' ≡ record v { last_accepted_timestep = some t })
      × (ahead ≤ t + v.drift_steps)
      × (t + v.drift_steps < ahead + rounds)

  later :
      (rounds ahead : ℕ) (v v' : TotpVerifier)
      → Hit rounds (ahead + 1) v v'
      → Hit (suc rounds) ahead v v'
  unfolding Hit
  later rounds ahead v v' (t, a, e, low, high) = (t, a, e, omega arith, omega arith)

  try_steps-found :
      (rounds ahead : ℕ) (v v' : TotpVerifier)
      → try_steps pf rounds code ahead v ≡ some (v', true)
      → Hit rounds ahead v v'
  unfolding try_steps Hit Decided
  try_steps-found zero ahead v v' h = absurd (cc)
  try_steps-found (suc rounds) ahead v v' h = elim (Bool-cases (ltb ahead v.drift_steps)) [
    | inl e ↦ later rounds ahead v v' (
        try_steps-found rounds (ahead + 1) v v'
          (negative_step-inv v.last_accepted_timestep _ v' true (rw e at h)))
    | inr e ↦ elim (try_step-inv v v' (ahead - v.drift_steps) _ (rw e at h)) [
      | inl on ↦ later rounds ahead v v' (try_steps-found rounds (ahead + 1) v v' on)
      | inr (a, same) ↦ (ahead - v.drift_steps, a, same, ground arith, ground arith)
    ]
  ]

-- A code that is accepted is the code of a time step that was not accepted before, is at most the
-- drift away from the clock's own step, and is from then on the last one accepted; nothing else of
-- the verifier changes.
pub verify-Accepts :
    (pf : Platform) (code : String) (now : ℕ) (v v' : TotpVerifier)
    → verify pf code now v ≡ some (v', true)
    → (t : ℕ) × Accepts pf code v t
      × (v' ≡ record v { last_accepted_timestep = some t })
      × (now / 1000 / v.step_seconds ≤ t + v.drift_steps)
      × (t ≤ now / 1000 / v.step_seconds + v.drift_steps)
unfolding verify Hit
verify-Accepts pf code now v v' h =
    let (t, a, e, low, high) =
      try_steps-found pf code (v.drift_steps * 2 + 1) (now / 1000 / v.step_seconds) v v' h in
    (t, a, e, low, omega arith)

-- The step that a code was accepted for is not accepted again, and no earlier one: of two codes that
-- are accepted in a row, the later one belongs to a later step.
pub verify-once :
    (pf : Platform) (first second : String) (now after : ℕ) (v v' v'' : TotpVerifier)
    → verify pf first now v ≡ some (v', true)
    → verify pf second after v' ≡ some (v'', true)
    → (s t : ℕ) × (v'.last_accepted_timestep ≡ some s)
      × (v''.last_accepted_timestep ≡ some t)
      × (s < t)
verify-once pf first second now after v v' v'' h k =
    let (s, a, e, _, _) = verify-Accepts pf first now v v' h in
    let (t, b, f, _, _) = verify-Accepts pf second after v' v'' k in
    let last : v'.last_accepted_timestep ≡ some s = ap (λ x. x.last_accepted_timestep) e in
    let fresh : is_used (some s) t ≡ false = ap (λ x. is_used x t) (sym last) ∙ b.fresh in
    (s, t, last, ap (λ x. x.last_accepted_timestep) f, ground (arith, fresh))
