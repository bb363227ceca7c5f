-- ===== src/Token/Revoke.antt =====
-- `revokeToken` and `cascadeRevoke` of src/token.ts. The recursion of the cascade takes fuel; running
-- out of it is the `RangeError` of a call stack that overflows. `revokeToken` gives one more unit than
-- there are tokens in the store.
pub mod Closure
pub mod Cascade
pub mod Ends
pub mod Active
pub mod Calm
pub mod Returns
pub mod Recorded
use ambit.Common.{
  ℕ, zero, suc, Bool, true, false, Option, none, some, List, [], ◌∷◌, String, length, template,
  if◌then◌else◌,
}
use ambit.Records.{
  Token, TokenStatus, RevocationReason, parent_revoked, reason_text, AuditFields, Decision, fields,
}
use ambit.Platform.{Platform}
use ambit.World.{
  World, Action, throw, pure, raise, ◌>>=◌, ◌>>◌, unknown_token, stack_overflow, record_entry,
}
use ambit.Token.Access.{token_get, token_save, children_of}
use ambit.Token.Enforce.{is_active}

-- `{ ...token, status: "revoked", revokedAt: now, revocationReason: reason }`
abbrev pub mark_revoked : Token → ℕ → RevocationReason → Token
mark_revoked t now reason = record t {
  status = TokenStatus.revoked;
  revoked_at = some now;
  revocation_reason = some reason;
}

-- The audit entry of a revocation.
abbrev pub revocation_fields : String → String → RevocationReason → Option String → AuditFields
revocation_fields id subject reason actor = record (fields subject "revoke" Decision.revoked) {
  token_id = some id;
  reason_code = some (reason_text reason);
  actor = actor;
}

module _ (pf : Platform) (now : ℕ) (actor : Option String) where
  -- The save and the audit entry of one child.
  unfoldable pub revoke_child : Token → Action (Unit {0})
  unfolding token_save record_entry
  revoke_child child = do
    token_save pf (mark_revoked child now parent_revoked)
    record_entry pf (revocation_fields child.id child.subject parent_revoked actor) now

  -- The loop over the children, which the call of `childrenOf` has listed; `recur` is the recursive
  -- call of `cascadeRevoke`.
  unfoldable pub revoke_each : (String → Action (Unit {0})) → List Token → Action (Unit {0})
  unfolding revoke_child
  revoke_each recur [] = pure tt
  revoke_each recur (child ∷ children) =
      let rest = revoke_each recur children in
      if is_active child.status then (do revoke_child child; recur child.id; rest) else rest

  unfoldable pub cascade_revoke : ℕ → String → Action (Unit {0})
  unfolding revoke_each children_of
  cascade_revoke zero parent w = (throw stack_overflow, w)
  cascade_revoke (suc depth) parent w = revoke_each (cascade_revoke depth) (children_of parent w) w

  unfoldable pub revoke_found : String → RevocationReason → Token → Action Token
  unfolding cascade_revoke
  revoke_found id reason t = do
    token_save pf (mark_revoked t now reason)
    record_entry pf (revocation_fields id t.subject reason actor) now
    (λ w. cascade_revoke (suc (length w.tokens.items)) id w)
    pure (mark_revoked t now reason)

  unfoldable pub revoke_if_found : String → RevocationReason → Option Token → Action Token
  unfolding revoke_found
  revoke_if_found id reason none = raise (
      unknown_token
        (template ("cannot revoke token \"" ∷ id ∷ "\" — no such token was issued" ∷ [])))
  revoke_if_found id reason (some t) = revoke_found id reason t

  -- `revokeToken`
  unfoldable pub revoke_token : String → RevocationReason → Action Token
  unfolding revoke_if_found token_get
  revoke_token id reason = token_get pf id >>= revoke_if_found id reason
