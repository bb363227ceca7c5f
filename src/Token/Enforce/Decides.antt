-- ===== src/Token/Enforce/Decides.antt =====
-- When the Enforcement Gateway of src/token.ts allows, and that it always decides.
use ambit.Common.{
  ℕ, ◌<◌, ◌≤◌, ◌≡◌, leb, refl, ap, ◌∙◌, ◌⊎◌, inl, inr, ◌↔◌, true, false, Option, none, some, String,
  arith, includes, Bool-cases, is_blank, if◌then◌else◌,
}
use ambit.Records.{Token}
use ambit.Platform.{Platform}
use ambit.Password.{verify_password}
use ambit.Store.{get}
use ambit.Audit.{lacks_reason}
use ambit.World.{World, ok, try_open, record_entry, write_entry, pure}
use ambit.World.Frame.{record_entry-accepts, bind-ok, try_open-ok, try_open-open}
use ambit.Token.Access.{token_get}
use ambit.Token.Access.Reads.{token_get-reads, IsUnavailable, is_down, read-up, refused-down}
use ambit.Token.Enforce.{
  DenyCode, EnforcementDecision, allow, deny, decide, decision_fields, denial_fields, log_denial,
  enforce_found, enforce_lookup, enforce_token, is_active, store_unavailable, unavailable_message,
  unknown_token, unknown_message, invalid_credential, credential_message, deny_text,
  revoked_message, expired_message, scope_message,
}

-- What must hold of a token for its holder to be let through.
pub record IsEntitled (pf : Platform) (t : Token) (secret action : String) (now : ℕ) : Type 0 where
  pub possessed : verify_password pf secret t.secret_hash ≡ true
  pub live : is_active t.status ≡ true
  pub unexpired : now < t.expires_at
  pub scoped : includes t.scope action ≡ true

-- The decision that the gateway owes a caller who asks for `action`, by what is stored under the id:
-- the first of the conditions, in this order, that fails.
pub data IsVerdict (pf : Platform) (id secret action : String) (now : ℕ)
    : Option Token → EnforcementDecision → Type 0 where
  missing : IsVerdict pf id secret action now none (deny unknown_token (unknown_message id))
  stranger :
      (t : Token)
      → verify_password pf secret t.secret_hash ≡ false
      → IsVerdict pf id secret action now (some t) (deny invalid_credential (credential_message id))
  ended :
      (t : Token)
      → verify_password pf secret t.secret_hash ≡ true
      → is_active t.status ≡ false
      → IsVerdict pf id secret action now (some t) (deny DenyCode.revoked (revoked_message pf t))
  late :
      (t : Token)
      → verify_password pf secret t.secret_hash ≡ true
      → is_active t.status ≡ true
      → t.expires_at ≤ now
      → IsVerdict pf id secret action now
          (some t)
          (deny DenyCode.expired (expired_message pf t now))
  outside :
      (t : Token)
      → verify_password pf secret t.secret_hash ≡ true
      → is_active t.status ≡ true
      → now < t.expires_at
      → includes t.scope action ≡ false
      → IsVerdict pf id secret action now
          (some t)
          (deny DenyCode.out_of_scope (scope_message pf t action))
  entitled :
      (t : Token)
      → IsEntitled pf t secret action now
      → IsVerdict pf id secret action now (some t) allow

module _ (pf : Platform) where
  decide_iff :
      (t : Token) (action : String) (now : ℕ)
      → (decide pf t action now ≡ allow)
        ↔ ((is_active t.status ≡ true) × (now < t.expires_at) × (includes t.scope action ≡ true))
  unfolding decide
  decide_iff t action now = ground arith

  deny_text-given : (code : DenyCode) → lacks_reason (some (deny_text code)) ≡ false
  unfolding lacks_reason is_blank
  deny_text-given DenyCode.revoked = refl
  deny_text-given DenyCode.expired = refl
  deny_text-given _ = refl

  log_denial-result :
      (id subject action : String) (code : DenyCode) (m : String) (now : ℕ) (w : World)
      → (log_denial pf id subject action code m now w).0 ≡ ok (deny code m)
  unfolding log_denial
  log_denial-result id subject action code m now w =
      let content = denial_fields id subject action code m in
      let e = record_entry-accepts pf content now w (deny_text-given code) in
      ap (λ r. r.0)
        (bind-ok (record_entry pf content now) (λ _. pure (deny code m)) tt w (ap (λ r. r.0) e))

  record-decision :
      (t : Token) (action : String) (d : EnforcementDecision) (now : ℕ) (w : World)
      → record_entry pf (decision_fields pf t action d) now w
        ≡ (ok tt, write_entry pf (decision_fields pf t action d) now w)
  unfolding decision_fields
  record-decision t action allow now w =
      record_entry-accepts pf (decision_fields pf t action allow) now w refl
  record-decision t action (deny code m) now w =
      record_entry-accepts pf (decision_fields pf t action (deny code m)) now w
        (deny_text-given code)

  -- The decision about a token that was found.
  unfoldable pub verdict : String → String → String → ℕ → Token → EnforcementDecision
  verdict id secret action now t =
      if verify_password pf secret t.secret_hash
      then decide pf t action now
      else deny invalid_credential (credential_message id)

  enforce_found-result :
      (id secret action : String) (now : ℕ) (t : Token) (w : World)
      → (enforce_found pf id secret action now t w).0 ≡ ok (verdict id secret action now t)
  unfolding enforce_found verdict
  enforce_found-result id secret action now t w =
      elim (Bool-cases (verify_password pf secret t.secret_hash)) [
        | inl holds ↦
            let d = decide pf t action now in
            rw holds (
              ap (λ r. r.0)
                (bind-ok (record_entry pf (decision_fields pf t action d) now) (λ _. pure d) tt w
                  (ap (λ r. r.0) (record-decision t action d now w))))
        | inr fails ↦
            rw fails (
              log_denial-result id t.subject action invalid_credential (credential_message id) now
                w)
      ]

  verdict_iff :
      (id secret action : String) (now : ℕ) (t : Token)
      → (verdict id secret action now t ≡ allow) ↔ IsEntitled pf t secret action now
  unfolding verdict
  verdict_iff id secret action now t = ground (arith, decide_iff t action now)

  -- What `enforce_token` looks up, and what that decides.
  unfoldable pub expected : String → String → String → ℕ → Option Token → EnforcementDecision
  expected id secret action now none = deny unknown_token (unknown_message id)
  expected id secret action now (some t) = verdict id secret action now t

  enforce_lookup-result :
      (id secret action : String) (now : ℕ) (found : Option Token) (w : World)
      → (enforce_lookup pf id secret action now (some found) w).0
        ≡ ok (expected id secret action now found)
  unfolding enforce_lookup expected
  enforce_lookup-result id secret action now none w =
      log_denial-result id "unknown" action unknown_token (unknown_message id) now w
  enforce_lookup-result id secret action now (some t) w =
      enforce_found-result id secret action now t w

  unavailable :
      (id secret action : String) (now : ℕ) (w : World)
      → (enforce_lookup pf id secret action now none w).0
        ≡ ok (deny store_unavailable (unavailable_message id))
  unfolding enforce_lookup
  unavailable id secret action now w =
      log_denial-result id "unknown" action store_unavailable (unavailable_message id) now w

  -- The decision is that of the token's record or, if the read was refused, `store_unavailable`.
  enforce_token-expected :
      (id secret action : String) (now : ℕ) (w : World)
      → (((token_get pf id w).0 ≡ ok (get id w.tokens))
          × ((enforce_token pf id secret action now w).0
              ≡ ok (expected id secret action now (get id w.tokens))))
        ⊎ (IsUnavailable (token_get pf id w).0
            × ((enforce_token pf id secret action now w).0
                ≡ ok (deny store_unavailable (unavailable_message id))))
  unfolding enforce_token
  enforce_token-expected id secret action now w =
      let (read, same) = token_get-reads pf id w in
      let v = (token_get pf id w).1 in
      elim read [
        | inl found ↦ inl (
          found,
          ap (λ r. r.0)
                (bind-ok (try_open (token_get pf id)) (enforce_lookup pf id secret action now)
                  (some (get id w.tokens)) w
                  (ap (λ r. r.0) (try_open-ok (token_get pf id) _ w found)))
              ∙ enforce_lookup-result id secret action now (get id w.tokens)
                  (try_open (token_get pf id) w).1,
        )
        | inr (m, e) ↦ inr (
          (m, e),
          ap (λ r. r.0)
                (bind-ok (try_open (token_get pf id)) (enforce_lookup pf id secret action now) none
                  w (ap (λ r. r.0) (try_open-open (token_get pf id) m w e)))
              ∙ unavailable id secret action now (try_open (token_get pf id) w).1,
        )
      ]

  -- The gateway lets nobody through but the holder of the secret of a token that is stored, active,
  -- unexpired and scoped for the action.
  pub enforce_token-safe :
      (id secret action : String) (now : ℕ) (w : World)
      → (enforce_token pf id secret action now w).0 ≡ ok allow
      → (t : Token) × (get id w.tokens ≡ some t) × IsEntitled pf t secret action now
  unfolding expected
  enforce_token-safe id secret action now w h =
      elim (enforce_token-expected id secret action now w) [
        | inl (read, e) ↦ entitled (get id w.tokens) refl (cc)
        | inr (refused, e) ↦ absurd (cc)
      ]
    where
      entitled :
          (found : Option Token)
          → get id w.tokens ≡ found
          → expected id secret action now found ≡ allow
          → (t : Token) × (get id w.tokens ≡ some t) × IsEntitled pf t secret action now
      entitled none e allowed = absurd (cc)
      entitled (some t) e allowed = (t, e, (verdict_iff id secret action now t).0 allowed)

  decide-IsVerdict :
      (id secret action : String) (now : ℕ) (t : Token)
      → verify_password pf secret t.secret_hash ≡ true
      → IsVerdict pf id secret action now (some t) (decide pf t action now)
  unfolding decide
  decide-IsVerdict id secret action now t held = elim (Bool-cases (is_active t.status)) [
    | inr dead ↦ rw dead (ended t held dead)
    | inl live ↦ elim (Bool-cases (leb t.expires_at now)) [
      | inl past ↦ rw (live, past) (late t held live (leb_le t.expires_at now past))
      | inr early ↦ elim (Bool-cases (includes t.scope action)) [
        | inr f ↦ rw (live, early, f) (outside t held live (leb_gt t.expires_at now early) f)
        | inl e ↦
            rw (live, early, e)
              (entitled t (record {
                possessed = held;
                live = live;
                unexpired = leb_gt t.expires_at now early;
                scoped = e;
              }))
      ]
    ]
  ]
    where
      leb_le : (m n : ℕ) → leb m n ≡ true → m ≤ n
      leb_le m n h = ground arith

      leb_gt : (m n : ℕ) → leb m n ≡ false → n < m
      leb_gt m n h = ground arith

  expected-IsVerdict :
      (id secret action : String) (now : ℕ) (found : Option Token)
      → IsVerdict pf id secret action now found (expected id secret action now found)
  unfolding expected verdict
  expected-IsVerdict id secret action now none = missing
  expected-IsVerdict id secret action now (some t) =
      elim (Bool-cases (verify_password pf secret t.secret_hash)) [
        | inl held ↦ rw held (decide-IsVerdict id secret action now t held)
        | inr other ↦ rw other (stranger t other)
      ]

  -- A call of the gateway always returns a decision: while the store's breaker admits calls, the one
  -- that `IsVerdict` gives for the token stored under the id; while it is cooling down, or an outage
  -- is simulated, a denial as `store_unavailable`.
  pub enforce_token-decides :
      (id secret action : String) (now : ℕ) (w : World)
      → (d : EnforcementDecision) × ((enforce_token pf id secret action now w).0 ≡ ok d)
        × (((is_down pf w.breaker w ≡ false)
              × IsVerdict pf id secret action now (get id w.tokens) d)
            ⊎ ((is_down pf w.breaker w ≡ true)
                × (d ≡ deny store_unavailable (unavailable_message id))))
  enforce_token-decides id secret action now w =
      elim (enforce_token-expected id secret action now w) [
        | inl (read, e) ↦ (
          expected id secret action now (get id w.tokens),
          e,
          inl (read-up pf id w read, expected-IsVerdict id secret action now (get id w.tokens)),
        )
        | inr (refused, e) ↦ (
          deny store_unavailable (unavailable_message id),
          e,
          inr (refused-down pf id w refused, refl),
        )
      ]
