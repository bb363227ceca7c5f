-- ===== src/Token/Issue.antt =====
-- `issueToken` of src/token.ts, in the two segments that its `await` leaves: the checks and the
-- draft, up to the hashing of the secret, and then the token's construction and the save. Between
-- them other requests may run.
pub mod Bounds
pub mod Stored
use ambit.Common.{
  ℕ, ◌+◌, ◌*◌, Bool, true, false, Option, none, some, List, [], ◌∷◌, String, all, includes, given,
  if◌then◌else◌, ltb, leb, template, length,
}
use ambit.Common.Int.{ℤ, pos, pos_part, leb_ℤ, ltb_ℤ}
use ambit.Records.{TokenRequest, Token, IssuedToken, Policy, TokenStatus}
use ambit.Platform.{Platform}
use ambit.Password.{hash_with, salt_bytes}
use ambit.World.{
  Error, World, Action, pure, raise, ◌>>=◌, ◌>>◌, invalid_scope, policy_violation, read_clock,
  draw_uuid, draw_bytes,
}
use ambit.Token.Access.{token_get, token_save, policy_get}

abbrev pub text_or_empty : Option String → String
text_or_empty none = ""
text_or_empty (some s) = s

unfoldable pub is_nil : List String → Bool
is_nil [] = true
is_nil (x ∷ xs) = false

-- What the first segment has settled.
pub record Draft : Type 0 where
  pub subject : String
  pub scope : List String
  pub issued_at : ℕ
  pub expires_at : ℕ
  pub parent_token_id : Option String
  pub secret : String
  pub secret_hash : String

-- `new Date(n)`: the time value, in milliseconds, up to 8.64e15; beyond that an Invalid Date. Such
-- a date's value is NaN, and the numbers above `max_time` stand for it.
abbrev pub max_time : ℕ
max_time = 8640000000000000

unfoldable pub date_time : ℕ → ℕ
date_time n = if leb n max_time then n else max_time + 1

-- The expiry, capped by the parent's if there is a parent. No comparison with NaN holds: an
-- Invalid Date is not capped, and nothing is capped by one.
abbrev pub cap_expiry : ℕ → Option Token → ℕ
cap_expiry expires none = expires
cap_expiry expires (some parent) =
    if leb expires max_time
    then (if ltb parent.expires_at expires then parent.expires_at else expires)
    else expires

-- The token of a draft.
abbrev pub token_of : Draft → String → Token
token_of d id = record {
  id = id;
  subject = d.subject;
  scope = d.scope;
  issued_at = d.issued_at;
  expires_at = d.expires_at;
  status = TokenStatus.active;
  parent_token_id = d.parent_token_id;
  revoked_at = none;
  revocation_reason = none;
  secret_hash = d.secret_hash;
}

module _ (pf : Platform) where
  -- The two guards on the request itself.
  unfoldable pub check_request : TokenRequest → Action (Unit {0})
  unfolding is_nil
  check_request request =
      if is_nil request.scope
      then raise (invalid_scope "scope must include at least one permission")
      else (if leb_ℤ request.ttl_seconds (pos 0)
          then raise (
              invalid_scope
                "ttlSeconds must be positive — a token cannot be issued already expired")
          else pure tt)

  -- The two guards of a policy that was found.
  unfoldable pub check_within : TokenRequest → Policy → Action (Unit {0})
  check_within request policy =
      if all (includes policy.allowed_scope) request.scope
      then (if ltb_ℤ policy.max_ttl_seconds request.ttl_seconds
          then raise (
              policy_violation (
                template (
                  "requested ttlSeconds ("
                  ∷ pf.show_number request.ttl_seconds
                  ∷ ") exceeds policy \""
                  ∷ policy.name
                  ∷ "\"'s max of "
                  ∷ pf.show_number policy.max_ttl_seconds
                  ∷ [])))
          else pure tt)
      else raise (
          policy_violation
            (template ("requested scope exceeds policy \"" ∷ policy.name ∷ "\"" ∷ [])))

  unfoldable pub check_found : TokenRequest → Option Policy → Action (Unit {0})
  unfolding check_within
  check_found request none = raise (
      policy_violation
        (template ("unknown policy \"" ∷ text_or_empty request.policy_id ∷ "\"" ∷ [])))
  check_found request (some policy) = check_within request policy

  -- The policy check; `has_store` says whether a `PolicyStore` was given.
  unfoldable pub check_policy : Bool → TokenRequest → Action (Unit {0})
  unfolding check_found policy_get
  check_policy has_store request =
      if given request.policy_id
      then (if has_store
          then policy_get pf (text_or_empty request.policy_id) >>= check_found request
          else raise (
              policy_violation (
                template (
                  "policyId \""
                  ∷ text_or_empty request.policy_id
                  ∷ "\" given but no PolicyStore was provided to check against"
                  ∷ []))))
      else pure tt

  -- `if (request.parentTokenId) { … }`: the expiry under the parent's.
  unfoldable pub capped : Option String → ℕ → Action ℕ
  unfolding token_get
  capped parent expires =
      if given parent
      then token_get pf (text_or_empty parent) >>= (λ found. pure (cap_expiry expires found))
      else pure expires

  -- `randomBytes(32).toString("hex")` and `hashPassword`.
  unfoldable pub make_secret : Action (String × String)
  unfolding draw_bytes
  make_secret = do
    bytes ← draw_bytes pf 32
    let secret = pf.to_hex bytes
    salt ← draw_bytes pf salt_bytes
    pure (secret, hash_with pf secret salt)

  -- Up to the `await`.
  unfoldable pub issue_begin : Bool → TokenRequest → Action Draft
  unfolding check_request check_policy capped make_secret read_clock date_time
  issue_begin has_store request = do
    check_request request
    check_policy has_store request
    issued_at ← read_clock pf
    expires_at ←
        capped request.parent_token_id (date_time (issued_at + pos_part request.ttl_seconds * 1000))
    (secret, secret_hash) ← make_secret
    pure (record {
      subject = request.subject;
      scope = request.scope;
      issued_at = issued_at;
      expires_at = expires_at;
      parent_token_id = request.parent_token_id;
      secret = secret;
      secret_hash = secret_hash;
    })

  -- After the `await`.
  unfoldable pub issue_finish : Draft → Action IssuedToken
  unfolding draw_uuid token_save
  issue_finish d = do
    id ← draw_uuid pf
    token_save pf (token_of d id)
    pure (record { token = token_of d id; secret = d.secret })

  -- `issueToken`, with nothing between the two segments.
  unfoldable pub issue_token : Bool → TokenRequest → Action IssuedToken
  unfolding issue_begin issue_finish
  issue_token has_store request = issue_begin has_store request >>= issue_finish
